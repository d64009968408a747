-- ===== src/Errors.antt =====
-- `Error` and `ErrorCode` of runtime/crates/kernel/src/lib.rs, as far as the models raise them.
use Prim.Native.String.{String}

-- `Error::new(ErrorCode::Refused, message)` and its siblings.
pub data Error : Type 0 where
  refused unavailable failed not_found : String → Error

-- `error.message`.
abbrev pub message : Error → String
message (refused why) = why
message (unavailable why) = why
message (failed why) = why
message (not_found why) = why
