-- ===== src/Felt/Tests.antt =====
-- Field elements at concrete inputs.
use zk_api.Prelude.{arith, ◌≡◌, refl, codes, ok}
use zk_api.Felt.{from_be_bytes, from_hex, to_hex, from_u64, felt_one}
use zk_api.Felt.Hex.{from_hex-to_hex}

from_hex_reads : from_hex (codes "0xdeadbeef") ≡ ok (from_u64 0xdeadbeef)
unfolding from_hex from_u64
from_hex_reads = refl

to_hex_writes : to_hex (from_u64 0xdeadbeef) ≡ codes "0xdeadbeef"
unfolding to_hex from_u64
to_hex_writes = refl

to_hex_one : to_hex felt_one ≡ codes "0x1"
unfolding to_hex
to_hex_one = refl

from_hex-to_hex_example : from_hex (to_hex felt_one) ≡ ok felt_one
unfolding from_be_bytes
from_hex-to_hex_example = from_hex-to_hex felt_one (omega arith)
