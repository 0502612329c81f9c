-- ===== src/Utils.antt =====
-- The helpers of src/utils that compute: reallocarray.c, and the text and bit functions of utils.c.
pub mod Reallocarray
pub mod Binary
pub mod Names
mod Examples
