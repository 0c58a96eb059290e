-- ===== src/Base/Decimals.antt =====
-- The decimal texts of Base/Machine, read back.
use Prim.Native.Char.{Char, code}
use Prim.Native.String.append.{nil, cons}
use text.Mathlib.TextLemmas.{append_assoc}
use native.Mathlib.Nat.{pow-succ'}
use mathlib.Core.Path.{subst}
use forge_mini.Base.{
  ℕ, zero, suc, ◌+◌, ◌-◌, ◌*◌, ◌/◌, ◌%◌, ◌^◌, ◌<◌, ◌≤◌, ◌≡◌, refl, ap, ◌∙◌, String, concat, Bool,
  true, false, Bool-cases, inl, inr, ltb, ◌==◌, if◌then◌else◌, arith,
}
use forge_mini.Base.Machine.{Time, unix_nano, Int64, is_negative, digit, decimal, show_int}

-- the number that the digits up to a dash stand for, behind those of `v`
unfoldable pub value : ℕ → String → ℕ
value v String.[] = v
value v (String.◌∷◌ c s) =
    let rest = value (v * 10 + (code c - 48)) s in if code c == 45 then v else rest

unfoldable pub dashed : String → Bool
dashed String.[] = false
dashed (String.◌∷◌ c s) = code c == 45

-- the int64 that a text begins with
unfoldable pub read_int : String → Int64
unfolding value
read_int String.[] = 0
read_int (String.◌∷◌ c s) = if code c == 45 then 2 ^ 64 - value 0 s else value 0 (String.◌∷◌ c s)

one : (c : Char) (s : String) → concat (String.◌∷◌ c "") s ≡ String.◌∷◌ c s
one c s = cons c "" s ∙ ap (String.◌∷◌ c) (nil s)

-- A digit is read as what it stands for, and is no dash.
read_digit :
    (d v : ℕ) (s : String)
    → d < 10
    → (value v (concat (digit d) s) ≡ value (v * 10 + d) s) × (dashed (concat (digit d) s) ≡ false)
unfolding value dashed
read_digit zero v s h = (ap (value v) (one "0" s), ap dashed (one "0" s))
read_digit (suc zero) v s h = (ap (value v) (one "1" s), ap dashed (one "1" s))
read_digit (suc (suc zero)) v s h = (ap (value v) (one "2" s), ap dashed (one "2" s))
read_digit (suc (suc (suc zero))) v s h = (ap (value v) (one "3" s), ap dashed (one "3" s))
read_digit (suc (suc (suc (suc zero)))) v s h = (ap (value v) (one "4" s), ap dashed (one "4" s))
read_digit (suc (suc (suc (suc (suc zero))))) v s h =
    (ap (value v) (one "5" s), ap dashed (one "5" s))
read_digit (suc (suc (suc (suc (suc (suc zero)))))) v s h =
    (ap (value v) (one "6" s), ap dashed (one "6" s))
read_digit (suc (suc (suc (suc (suc (suc (suc zero))))))) v s h =
    (ap (value v) (one "7" s), ap dashed (one "7" s))
read_digit (suc (suc (suc (suc (suc (suc (suc (suc zero)))))))) v s h =
    (ap (value v) (one "8" s), ap dashed (one "8" s))
read_digit (suc (suc (suc (suc (suc (suc (suc (suc (suc zero))))))))) v s h =
    (ap (value v) (one "9" s), ap dashed (one "9" s))
read_digit (suc (suc (suc (suc (suc (suc (suc (suc (suc (suc n)))))))))) v s h =
    absurd (omega (arith, h))

-- A text behind the digits is read after them.
decimal-concat : (f n : ℕ) (s t : String) → concat (decimal f n s) t ≡ decimal f n (concat s t)
unfolding decimal
decimal-concat zero n s t = refl
decimal-concat (suc f) n s t = elim (Bool-cases (ltb n 10)) [
  | inl e ↦ rw e (append_assoc (digit n) s t)
  | inr e ↦ rw e (
      decimal-concat f (n / 10) (concat (digit (n % 10)) s) t
      ∙ ap (decimal f (n / 10)) (append_assoc (digit (n % 10)) s t))
]

ltb_lt : {a b : ℕ} → ltb a b ≡ true → a < b
ltb_lt e = ground (arith, e)

quotient_lt : (n m : ℕ) → n < 10 * m → n / 10 < m
quotient_lt n m h = omega (arith, h)

same_value : (a b : ℕ) (t : String) → a ≡ b → value a t ≡ value b t
same_value a b t e = ap (λ k. value k t) e

value-decimal : (f n : ℕ) (t : String) → n < 10 ^ f → value 0 (decimal f n t) ≡ value n t
unfolding decimal
value-decimal zero n t h = same_value 0 n t (omega (arith, h))
value-decimal (suc f) n t h = elim (Bool-cases (ltb n 10)) [
  | inl e ↦ rw e ((read_digit n 0 t (ltb_lt e)).0 ∙ same_value _ n t (omega arith))
  | inr e ↦ rw e (
      value-decimal f (n / 10) (concat (digit (n % 10)) t)
        (quotient_lt n (10 ^ f) (subst (λ m. n < m) (pow-succ' 10 f) h))
      ∙ (read_digit (n % 10) (n / 10) t (omega arith)).0
      ∙ same_value _ n t (omega arith))
]

not_dashed : (f n : ℕ) (t : String) → dashed t ≡ false → dashed (decimal f n t) ≡ false
unfolding decimal
not_dashed zero n t h = h
not_dashed (suc f) n t h = elim (Bool-cases (ltb n 10)) [
  | inl e ↦ rw e (read_digit n 0 t (ltb_lt e)).1
  | inr e ↦
      rw e (
        not_dashed f (n / 10) (concat (digit (n % 10)) t) (read_digit (n % 10) 0 t (omega arith)).1)
]

dashed-decimal : (f n : ℕ) (t : String) → dashed (decimal (suc f) n t) ≡ false
unfolding decimal
dashed-decimal f n t = elim (Bool-cases (ltb n 10)) [
  | inl e ↦ rw e (read_digit n 0 t (ltb_lt e)).1
  | inr e ↦
      rw e (
        not_dashed f (n / 10) (concat (digit (n % 10)) t) (read_digit (n % 10) 0 t (omega arith)).1)
]

read_value : (s : String) → dashed s ≡ false → read_int s ≡ value 0 s
unfolding read_int dashed
read_value String.[] h = refl
read_value (String.◌∷◌ c s) h = rw h refl

-- a text at which a number ends
abbrev pub EndsNumber : String → Type 0
EndsNumber t = (v : ℕ) → value v t ≡ v

digits_read :
    (n : ℕ) (t : String) → n < 10 ^ 20 → EndsNumber t → value 0 (concat (decimal 20 n "") t) ≡ n
digits_read n t h k =
    ap (value 0) (decimal-concat 20 n "" t ∙ ap (decimal 20 n) (nil t))
    ∙ value-decimal 20 n t h
    ∙ k n

digits_not_dashed : (n : ℕ) (t : String) → dashed (concat (decimal 20 n "") t) ≡ false
digits_not_dashed n t = ap dashed (decimal-concat 20 n "" t) ∙ dashed-decimal 19 n (concat "" t)

read_negative :
    (a : Int64) (t : String)
    → a < 2 ^ 64
    → 2 ^ 63 ≤ a
    → EndsNumber t
    → read_int (concat (concat "-" (decimal 20 (2 ^ 64 - a) "")) t) ≡ a
unfolding read_int
read_negative a t h e k =
    ap read_int (append_assoc "-" (decimal 20 (2 ^ 64 - a) "") t ∙ one "-" _)
    ∙ ap (λ n. 2 ^ 64 - n) (digits_read (2 ^ 64 - a) t (omega (arith, h)) k)
    ∙ omega (arith, h)

-- An int64 is read back from its text, whatever follows that is no digit.
pub read_int-show_int :
    (a : Int64) (t : String) → a < 2 ^ 64 → EndsNumber t → read_int (concat (show_int a) t) ≡ a
unfolding show_int
read_int-show_int a t h k = elim (Bool-cases (is_negative a)) [
  | inl e ↦ rw e (read_negative a t h (ground (arith, e)) k)
  | inr e ↦ rw e (read_value _ (digits_not_dashed a t) ∙ digits_read a t (omega (arith, h)) k)
]

-- A `UnixNano` is an int64.
pub nanos_small : (t : Time) → unix_nano t < 2 ^ 64
unfolding unix_nano
nanos_small t = omega arith
