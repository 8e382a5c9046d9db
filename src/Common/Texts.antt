-- ===== src/Common/Texts.antt =====
-- The concatenation of texts, under a name that the one of lists leaves free.
use Prim.Native.String.{String, ◌++◌, count}
use Prim.Native.Nat.{ℕ}
use mathlib.Core.Path.{◌≡◌}
use native.Mathlib.Omega.{arith}
use text.Mathlib.TextLemmas.{length-append, append_inj}

abbrev pub append : String → String → String
append s t = s ++ t

-- Two texts that agree, with endings of the same length, agree in both parts.
pub append_inj_end :
    {s t p q : String} → append s p ≡ append t q → count p ≡ count q → (s ≡ t) × (p ≡ q)
append_inj_end {s} {t} {p} {q} e h =
    let whole : count (append s p) ≡ count (append t q) = rw e in
    append_inj e (omega (arith, length-append s p, length-append t q))

-- The number of characters of a text.
abbrev pub text_length : String → ℕ
text_length s = count s
