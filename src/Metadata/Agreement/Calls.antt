-- ===== src/Metadata/Agreement/Calls.antt =====
-- Any sequence of calls has the same effect on both metadata stores.
use filpe.Prelude.{list_equality, number_equality}
