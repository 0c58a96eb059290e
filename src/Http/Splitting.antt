-- ===== src/Http/Splitting.antt =====
-- The laws of the functions on paths that internal/httpapi/server.go uses.
use Prim.Native.Char.{code}
use text.Mathlib.TextLemmas.{append-nil}
use Prim.Native.String.append.{nil, cons}
use forge_mini.Base.{
  String, concat, ◌≡◌, refl, ◌∙◌, ap, sym, Bool, Bool-cases, inl, inr, true, false, not, ◌||◌, some,
  none, [], ◌∷◌, str_eq, eq_iff, ◌==◌, arith,
}
use forge_mini.Http.Paths.{behind, trim_prefix, push_first, split_slash}

-- a text with no slash in it
abbrev pub HasNoSlash : String → Type 0
HasNoSlash String.[] = Unit
HasNoSlash (String.◌∷◌ c s) = ((code c == b'/') ≡ false) × HasNoSlash s

pub behind-concat : (prefix s : String) → behind prefix (concat prefix s) ≡ some s
unfolding behind
behind-concat String.[] s = ap some (nil s)
behind-concat (String.◌∷◌ c prefix) s =
    rw (cons c prefix s) (ground (arith, behind-concat prefix s))

pub trim_prefix-concat : (prefix s : String) → trim_prefix (concat prefix s) prefix ≡ s
unfolding trim_prefix
trim_prefix-concat prefix s = rw (behind-concat prefix s, trim_prefix) refl

pub split_slash-one : (s : String) → HasNoSlash s → split_slash s ≡ s ∷ []
unfolding split_slash push_first
split_slash-one String.[] h = refl
split_slash-one (String.◌∷◌ c s) (e, h) = rw (split_slash-one s h, e) refl

pub split_slash-two :
    (s t : String) → HasNoSlash s → split_slash (concat s (concat "/" t)) ≡ s ∷ split_slash t
unfolding split_slash push_first
split_slash-two String.[] t h = rw (nil (concat "/" t), cons "/" "" t, nil t) refl
split_slash-two (String.◌∷◌ c s) t (e, h) =
    rw (cons c s (concat "/" t), split_slash-two s t h, e) refl

-- two texts that differ at a place that both have
abbrev pub diverge : String → String → Bool
diverge String.[] q = false
diverge (String.◌∷◌ c p) String.[] = false
diverge (String.◌∷◌ c p) (String.◌∷◌ d q) = let rest = diverge p q in not (code c == code d) || rest

pub behind-diverge : (p q s : String) → diverge p q ≡ true → behind p (concat q s) ≡ none
unfolding behind
behind-diverge String.[] q s h = cc
behind-diverge (String.◌∷◌ c p) String.[] s h = cc
behind-diverge (String.◌∷◌ c p) (String.◌∷◌ d q) s h =
    rw (cons d q s) (ground (arith, behind-diverge p q s))

pub str_eq-diverge : (p q s : String) → diverge p q ≡ true → str_eq p (concat q s) ≡ false
str_eq-diverge p q s h = elim (Bool-cases (str_eq p (concat q s))) [
  | inr e ↦ e
  | inl e ↦
      let same : p ≡ concat q s = (eq_iff p (concat q s)).0 e in
      let whole : behind p p ≡ some "" = ap (behind p) (sym (append-nil p)) ∙ behind-concat p "" in
      let cut : behind p (concat q s) ≡ none = behind-diverge p q s h in
      let met : behind p p ≡ behind p (concat q s) = ap (behind p) same in cc
]
