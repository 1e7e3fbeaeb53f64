-- ===== src/Queue/Backoff.antt =====
-- How long SQS holds back a message whose handling keeps failing.
use native.Mathlib.Nat.{pow-le-pow_right}
use golangci_api.Base.{
  ℕ, zero, suc, ◌+◌, ◌*◌, ◌^◌, ◌≤◌, ◌<◌, ◌≡◌, refl, ◌↔◌, arith, ap, inl, inr, ◌⊎◌,
}
use golangci_api.Base.Int.{ℤ, pos, negsuc}
use golangci_api.Queue.Sqs.{to_int64, shifted, delay_sec}

abbrev pub seconds : ℤ → ℕ
seconds (pos n) = n
seconds (negsuc n) = 0

-- The time that passes while the attempts 1 to `n` fail.
abbrev pub waited : ℕ → ℕ
waited zero = 0
waited (suc n) = waited n + seconds (delay_sec (suc n))

le_or_gt : (n k : ℕ) → (n ≤ k) ⊎ (suc k ≤ n)
le_or_gt n k = omega arith

small : (n : ℕ) → n ≤ 58 → 2 ^ n ≤ 2 ^ 58
small n h = pow-le-pow_right (omega arith) h

to_int64-small : (x : ℕ) → x < 2 ^ 63 → to_int64 x ≡ pos x
to_int64-small x h = ground arith

shifted-small : (n : ℕ) → n ≤ 58 → shifted n ≡ 2 ^ n
shifted-small n h = ground arith

word-small : (x : ℕ) → x ≤ 2 ^ 58 → to_int64 (x * 20) ≡ pos (x * 20)
word-small x h = to_int64-small (x * 20) (omega arith)

delay_sec-small : (n : ℕ) → n ≤ 58 → delay_sec n ≡ pos (2 ^ n * 20)
delay_sec-small n h = rw (shifted-small n h) (word-small (2 ^ n) (small n h))

step :
    (n d : ℕ) → waited n + 40 ≡ 40 * 2 ^ n → d ≡ 2 ^ suc n * 20 → waited n + d + 40 ≡ 40 * 2 ^ suc n
step n d h e = omega arith

waited-small : (n : ℕ) → n ≤ 58 → waited n + 40 ≡ 40 * 2 ^ n
waited-small zero h = refl
waited-small (suc n) h =
    step n (seconds (delay_sec (suc n))) (waited-small n (omega arith))
      (ap seconds (delay_sec-small (suc n) h))

within : (n : ℕ) → waited n + 40 ≡ 40 * 2 ^ n → waited n ≤ 43200 → n ≤ 10
within n e w = elim (le_or_gt n 10) [
  | inl k ↦ k
  | inr g ↦ let big : 2 ^ 11 ≤ 2 ^ n = pow-le-pow_right (omega arith) g in omega arith
]

within_back : (n : ℕ) → waited n + 40 ≡ 40 * 2 ^ n → n ≤ 10 → waited n ≤ 43200
within_back n e k = let little : 2 ^ n ≤ 2 ^ 10 = pow-le-pow_right (omega arith) k in omega arith

-- Up to 58 failed attempts the delay does not overflow: it is twenty seconds, doubled at each
-- attempt. A message may be held back for 43200 seconds in all, and it is exactly up to the tenth
-- attempt that the attempts stay within them.
pub delay_sec_total :
    (n : ℕ) → n ≤ 58 → (delay_sec n ≡ pos (2 ^ n * 20)) × (waited n ≤ 43200 ↔ n ≤ 10)
delay_sec_total n h =
    (delay_sec-small n h, (within n (waited-small n h), within_back n (waited-small n h)))
