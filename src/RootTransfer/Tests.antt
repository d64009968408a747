-- ===== src/RootTransfer/Tests.antt =====
-- runtime/crates/kernel/src/root_transfer.rs: the theorems on frames at one frame each.
use polyvisor.Common.{◌≡◌, refl, some, replicate}
use polyvisor.RootTransfer.{transfer, encode, receive}
use polyvisor.RootTransfer.Frames.{receive-encode}

receive-encode_example :
    receive (some (encode (transfer (replicate 32 1) (replicate 32 2) (replicate 32 3))))
    ≡ some (transfer (replicate 32 1) (replicate 32 2) (replicate 32 3))
receive-encode_example =
    receive-encode (transfer (replicate 32 1) (replicate 32 2) (replicate 32 3)) (refl, refl, refl)
