-- ===== src/DetectAlive/Targets.antt =====
-- The addresses that `do_connect` of detectAlive.c connects to.
use mbench.Prelude.{
  ℕ, ◌+◌, ◌/◌, ◌%◌, ◌≤◌, ◌≡◌, ◌≢◌, sym, inl, inr, none, some, arith, Bool-cases, eq_of_some, ◌==◌,
  if◌then◌else◌,
}
use mbench.DetectAlive.{target}

abbrev past_byte : ℕ → ℕ
past_byte a = if a % 256 == 255 then a + 13 else a

abbrev past_third : ℕ → ℕ
past_third a = if a / 256 % 256 == 255 then a + 256 else a

past_byte_lem : (a : ℕ) → (past_byte a % 256 ≢ 255) × (a ≤ past_byte a) × (past_byte a ≤ a + 13)
past_byte_lem a = (λ e. ground arith, ground arith, ground arith)

past_third_lem :
    (a : ℕ)
    → a % 256 ≢ 255
    → (past_third a % 256 ≢ 255)
      × (past_third a / 256 % 256 ≢ 255)
      × (a ≤ past_third a)
      × (past_third a ≤ a + 256)
past_third_lem a ne = (λ e. ground arith, λ e. ground arith, ground arith, ground arith)

-- Where `do_connect` connects for `ipv4addr`, the address has neither a last nor a third byte 255,
-- its second byte is not 0x17, and it is at least `ipv4addr` and at most 269 above it.
pub target_skips :
    (ipv4addr b : ℕ)
    → target ipv4addr ≡ some b
    → (b % 256 ≢ 255)
      × (b / 256 % 256 ≢ 255)
      × (b / 65536 % 256 ≢ 23)
      × (ipv4addr ≤ b)
      × (b ≤ ipv4addr + 269)
unfolding target
target_skips ipv4addr b e = elim (Bool-cases (c / 65536 % 256 == 23)) [
  | inl out ↦ absurd (nothing (rw out at e))
  | inr on ↦
      let same : c ≡ b = eq_of_some (rw on at e) in
      let (last, low, high) = past_byte_lem ipv4addr in
      let (last', third, low', high') = past_third_lem (past_byte ipv4addr) last in
      rw (sym same) (last', third, λ s. ground (arith, s), omega arith, omega arith)
]
  where
    c : ℕ
    c = past_third (past_byte ipv4addr)

    nothing : none ≢ some b
    nothing e = cc
