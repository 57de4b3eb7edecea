-- ===== src/Gate/Duration.antt =====
-- pigate/pkg/gate/gate.go, `time.Duration(g.gateOpenDuration) * time.Second` as Go computes it, in 64
-- bits.
use pigate.Prelude.{
  ℕ, ◌+◌, ◌-◌, ◌*◌, ◌%◌, ◌^◌, ◌≤◌, ◌<◌, ◌≡◌, ◌↔◌, ℤ, pos, negsuc, arith, ltb, if◌then◌else◌,
}
use pigate.Gate.Controller.{sleep}

-- The number of nanoseconds that the low 64 bits of a product stand for.
abbrev signed : ℕ → ℤ
signed bits = if ltb bits (2 ^ 63) then pos bits else negsuc (2 ^ 64 - 1 - bits)

unfoldable pub nanoseconds : ℤ → ℤ
nanoseconds (pos n) = signed ((n * 1000000000) % 2 ^ 64)
nanoseconds (negsuc n) = signed ((2 ^ 64 - ((n + 1) * 1000000000) % 2 ^ 64) % 2 ^ 64)

-- `time.Sleep` of that.
abbrev pub slept : ℤ → ℕ
slept seconds = sleep (nanoseconds seconds)

-- A duration of at most 9223372036 seconds, about 292 years, is slept as it is, and no longer one is. A
-- negative one of at least that many is not slept.
pub slept_lem :
    (n : ℕ)
    → ((slept (pos n) ≡ sleep (pos n) * 1000000000) ↔ (n ≤ 9223372036))
      × (n < 9223372036 → slept (negsuc n) ≡ sleep (negsuc n) * 1000000000)
unfolding nanoseconds
slept_lem n = ((λ h. ground arith, λ h. ground arith), λ h. ground arith)
