-- ===== src/Tests/FormatTests.antt =====
-- Numbers as text of RADKernel/core/RADKernel_runtime.cpp at concrete numbers.
use radpx_os.Base.{◌%◌, ◌^◌, ◌≡◌, refl, [], arith, codes}
use radpx_os.Base.Int.{negsuc}
use radpx_os.Format.{append_u64, append_i64, append_hex64, parse_u64}
use radpx_os.Format.Decimal.{parse_u64-append_u64, value_of, parse_u64_wraps}
use radpx_os.Format.Hex.{hex_value, hex_value-append_hex64}

printed : append_u64 24 (codes "n=") 1234 ≡ codes "n=1234"
unfolding append_u64
printed = refl

printed_short : append_u64 5 (codes "n=") 1234 ≡ codes "n=12"
unfolding append_u64
printed_short = refl

printed_negative : append_i64 24 [] (negsuc 41) ≡ codes "-42"
unfolding append_i64
printed_negative = refl

printed_hex : append_hex64 20 [] 0xbeef00 ≡ codes "beef00"
unfolding append_hex64
printed_hex = refl

not_a_number : parse_u64 (codes "12x") 7 ≡ 7
unfolding parse_u64
not_a_number = refl

parse_u64-append_u64_example :
    parse_u64 (append_u64 24 [] 18446744073709551615) 0 ≡ 18446744073709551615
parse_u64-append_u64_example =
    parse_u64-append_u64 24 18446744073709551615 0 (omega arith) (omega arith)

too_large_wraps :
    parse_u64 (codes "18446744073709551616") 7 ≡ value_of (codes "18446744073709551616") 0 % 2 ^ 64
too_large_wraps = parse_u64_wraps (codes "18446744073709551616") 7 (omega arith) (omega arith)

hex_value-append_hex64_example : hex_value (append_hex64 20 [] 48879) 0 ≡ 48879
hex_value-append_hex64_example = hex_value-append_hex64 20 48879 (omega arith) (omega arith)
