-- ===== src/Arrays.antt =====
-- Arrays, slices and counted loops as the codec uses them (`span` of src/span.go and Go's slices). A
-- `span` is an array and an offset into it; `none` is the panic of an index out of range.
mod Access
mod Loop
mod Overwrite
unfoldable pub use Access.*
unfoldable pub use Loop.*
unfoldable pub use Overwrite.*
