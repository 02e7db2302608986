-- ===== src/Strategy/Envelope/Bounds.antt =====
-- The sizes of what the next rung is told, and the end of the loop that shrinks it.
use loker.Prelude.{
  ℕ, zero, suc, ◌+◌, ◌-◌, ◌/◌, ◌≤◌, ◌<◌, ◌≡◌, refl, false, Option, some, [], ◌∷◌, ◌++◌, leb,
  if◌then◌else◌, if_ind, arith, ◌&&◌,
}
use loker.Prelude.Text.{Text, str, byte_len, char_len}
use loker.Prelude.Decimal.{decimal, decimal_mono, byte_len-append}
use loker.Strategy.Envelope.{
  Texts, FailureContext, cut, suffix_of, suffix_template_len, truncate_excerpt, envelope_at, shrink,
  shrink_rounds, build_failure_envelope, max_failure_context_bytes,
}

cut-byte_len : (n : ℕ) (s : Text) → byte_len (cut n s) ≤ n
unfolding cut byte_len
cut-byte_len n [] = omega arith
cut-byte_len n (c ∷ s) = ground (arith, cut-byte_len (n - char_len c) s)

suffix-byte_len : (n : ℕ) → byte_len (suffix_of n) ≡ suffix_template_len + byte_len (decimal n)
unfolding byte_len
suffix-byte_len n = omega (arith, byte_len-append (decimal n) (str " bytes elided]"))

-- A truncated text has at most the bytes that it may have, its suffix and the digits in it
-- included.
pub truncate_excerpt-byte_len :
    (s : Text) (max_bytes : ℕ) → byte_len (truncate_excerpt s max_bytes) ≤ max_bytes
unfolding truncate_excerpt
truncate_excerpt-byte_len s max_bytes =
    if_ind (λ (t : Text). byte_len t ≤ max_bytes) (leb (byte_len s) max_bytes) _ _
      (λ h. ground arith)
      (λ h.
        if_ind (λ (t : Text). byte_len t ≤ max_bytes) (leb max_bytes suffix_len) _ _
          (λ g. cut-byte_len max_bytes s) (λ g. with_suffix (ground arith)))
  where
    suffix_len : ℕ
    suffix_len = suffix_template_len + byte_len (decimal (byte_len s))

    kept : Text
    kept = cut (max_bytes - suffix_len) s

    with_suffix :
        suffix_len < max_bytes
        → byte_len (kept ++ suffix_of (byte_len s - byte_len kept)) ≤ max_bytes
    with_suffix g = omega (
      arith,
      byte_len-append kept (suffix_of (byte_len s - byte_len kept)),
      suffix-byte_len (byte_len s - byte_len kept),
      decimal_mono (byte_len s - byte_len kept) (byte_len s) (omega arith),
      cut-byte_len (max_bytes - suffix_len) s,
    )

-- The rounds that are left for the two budgets.
abbrev rounds_left : ℕ → ℕ → ℕ
rounds_left budget cap = (budget + 511) / 512 + (cap + 191) / 256

-- Enough rounds end with a text that fits.
shrink-byte_len :
    (fuel : ℕ) (texts : Texts) (ctx : FailureContext) (body : Text) (budget cap : ℕ)
    → rounds_left budget cap < fuel
    → (t : Text) × (shrink fuel texts ctx body budget cap ≡ some t)
      × (byte_len t ≤ max_failure_context_bytes)
unfolding shrink
shrink-byte_len zero texts ctx body budget cap h = absurd (omega arith)
shrink-byte_len (suc fuel) texts ctx body budget cap h =
    let envelope = envelope_at texts ctx body budget cap in
    let Fits : Option Text → Type 0 =
      λ o. (t : Text) × (o ≡ some t) × (byte_len t ≤ max_failure_context_bytes) in
    let spent = leb budget 0 in
    let next : ((spent && leb cap 64) ≡ false)
        → rounds_left (if spent then budget else budget - 512) (if spent then cap - 256 else cap)
          < fuel =
      λ more. fewer more in
    if_ind (λ (o : Option Text). Fits o) (leb (byte_len envelope) max_failure_context_bytes) _ _
      (λ g. (envelope, refl, ground arith))
      (λ g.
        if_ind (λ (o : Option Text). Fits o) (spent && leb cap 64) _ _
          (λ end. (
            truncate_excerpt envelope max_failure_context_bytes,
            refl,
            truncate_excerpt-byte_len envelope max_failure_context_bytes,
          ))
          (λ more.
            shrink-byte_len fuel texts ctx body (if spent then budget else budget - 512)
              (if spent then cap - 256 else cap) (next more)))
  where
    fewer :
        (leb budget 0 && leb cap 64) ≡ false
        → rounds_left
            (if leb budget 0 then budget else budget - 512)
            (if leb budget 0 then cap - 256 else cap)
          < fuel
    fewer more = ground arith

-- The loop that shrinks the failure envelope ends within its rounds, whatever the failure and the
-- prompt, with a text of at most 8192 bytes.
pub build_failure_envelope-byte_len :
    (texts : Texts) (ctx : FailureContext) (body : Text)
    → (t : Text) × (build_failure_envelope texts ctx body ≡ some t)
      × (byte_len t ≤ max_failure_context_bytes)
unfolding build_failure_envelope
build_failure_envelope-byte_len texts ctx body =
    shrink-byte_len shrink_rounds texts ctx body 4096 1024 (omega arith)
