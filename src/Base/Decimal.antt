-- ===== src/Base/Decimal.antt =====
-- Decimal numerals as Go prints them: `strconv.Itoa`, `%d`, and zero padding.
use uptime_service_backend.Base.Tests.{◌==◌, if◌then◌else◌}
use uptime_service_backend.Base.Text.{Bytes}
use uptime_service_backend.Base.Int.{ℤ, pos, negsuc}
use Prim.Native.Nat.{ℕ, zero, suc, ◌+◌, ◌/◌, ◌%◌}
use uptime_service_backend.Base.Lists.{length}
use mathlib.Core.List.{[], ◌∷◌}

-- The digits of `n` before `acc`; the fuel is more than the number of digits.
unfoldable pub digits_before : ℕ → ℕ → Bytes → Bytes
digits_before zero n acc = acc
digits_before (suc fuel) n acc =
    let acc' = (b'0' + n % 10) ∷ acc in
    let more = digits_before fuel (n / 10) acc' in if n / 10 == 0 then acc' else more

unfoldable pub decimal : ℕ → Bytes
unfolding digits_before
decimal n = digits_before (suc n) n []

unfoldable pub itoa : ℤ → Bytes
unfolding decimal
itoa (pos n) = decimal n
itoa (negsuc n) = b'-' ∷ decimal (suc n)

-- `width` zeros less the length of `s`, then `s`.
unfoldable pub zero_pad : ℕ → Bytes → Bytes
zero_pad zero s = s
zero_pad (suc width) s =
    let shorter = zero_pad width s in
    elim (length shorter) [
      | zero ↦ b'0' ∷ s
      | suc n ↦ if suc n == width then b'0' ∷ shorter else shorter
    ]

-- Two digits, for a number below 100.
unfoldable pub two_digits : ℕ → Bytes
two_digits n = (b'0' + n / 10 % 10) ∷ (b'0' + n % 10) ∷ []
