-- ===== src/Cli/Tests.antt =====
-- A command line with an option and both endpoints. The number of a text is read by `decimal`, which stops at the
-- first byte that is no digit.
use sockify.Prelude.{
  ℕ, ◌+◌, ◌-◌, ◌*◌, ◌%◌, ◌^◌, ◌<◌, ◌≡◌, refl, arith, ◌&&◌, List, [], ◌∷◌, Bytes, codes, same_text,
  leb, if◌then◌else◌,
}
use sockify.Cli.{
  Strtoul, returned, parse_args, args_loop, set_flag, set_option, set_number, set_endpoint,
  parse_size, parse_uint, log_level_from_string,
}
use sockify.Cli.Fits.{Fits, GivesLong, parse_args-Fits}
use sockify.Config.{config_init, validate_tls}
use sockify.Net.{parse_endpoint, parse_plain, split_last, copy_both, copy_part}
use sockify.Status.{ok}

abbrev decimal_from : ℕ → Bytes → ℕ × Bytes
decimal_from n [] = (n % 2 ^ 64, [])
decimal_from n (x ∷ xs) =
    let r = decimal_from (n * 10 + (x - 48)) xs in
    if leb 48 x && leb x 57 then r else (n % 2 ^ 64, x ∷ xs)

abbrev pub decimal : Strtoul
decimal text = decimal_from 0 text

abbrev pub arguments : List Bytes
arguments =
    codes "--idle-timeout" ∷ codes "250" ∷ codes "127.0.0.1:8080" ∷ codes "localhost:5900" ∷ []

parsed : parse_args decimal arguments config_init ≡ (
  returned ok,
  record config_init {
    idle_timeout_ms = 250;
    listen_endpoint = record { host = codes "127.0.0.1"; port = codes "8080" };
    target_endpoint = record { host = codes "localhost"; port = codes "5900" };
  },
)
unfolding parse_args args_loop set_flag set_option set_number set_endpoint parse_size parse_uint
    parse_endpoint parse_plain split_last copy_both copy_part same_text validate_tls
    log_level_from_string
parsed = refl

decimal_from-bound : (text : Bytes) (n : ℕ) → (decimal_from n text).0 < 2 ^ 64
decimal_from-bound [] n = omega arith
decimal_from-bound (x ∷ xs) n = ground (arith, decimal_from-bound xs (n * 10 + (x - 48)))

decimal-GivesLong : GivesLong decimal
decimal-GivesLong text = decimal_from-bound text 0

config_init-Fits : Fits config_init
config_init-Fits = omega arith

parse_args-Fits_example : Fits (parse_args decimal arguments config_init).1
parse_args-Fits_example =
    parse_args-Fits decimal arguments config_init decimal-GivesLong config_init-Fits
