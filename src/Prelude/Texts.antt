-- ===== src/Prelude/Texts.antt =====
-- Text as the list of its code points, and how it is split.
use Prim.Native.Nat.{ℕ}
use Prim.Native.Char.{code}
use Prim.Native.String.{String}
use mathlib.Core.Path.{◌≡◌, refl}
use mathlib.Core.Bool.{true, false}
use mathlib.Core.List.{List, [], ◌∷◌, ◌++◌}
use mathlib.Core.Option.{Option, none, some}
use native.Mathlib.Omega.{arith}
use herm_os_test.Prelude.Tests.{◌==◌, if◌then◌else◌}

abbrev pub Text : Type 0
Text = List ℕ

abbrev pub codes : String → Text
codes String.[] = []
codes (String.◌∷◌ c s) = code c ∷ codes s

-- What stands before the first `q` of a text, if there is one.
unfoldable pub before : ℕ → Text → Option Text
before q [] = none
before q (c ∷ s) =
    let rest = before q s in
    if c == q then some [] else elim rest [ some t ↦ some (c ∷ t) | none ↦ none ]

-- `q` is no character of the text
abbrev pub Lacks : ℕ → Text → Type 0
Lacks q [] = Unit {0}
Lacks q (c ∷ s) = (c == q ≡ false) × Lacks q s

pub before-append : (q : ℕ) (s t : Text) → Lacks q s → before q (s ++ (q ∷ t)) ≡ some s
unfolding before
before-append q [] t lacks = let here : q == q ≡ true = ground arith in rw here refl
before-append q (c ∷ s) t (differs, lacks) = rw (differs, before-append q s t lacks) refl

-- what follows `marker`, at the start of a text
unfoldable pub strip_prefix : Text → Text → Option Text
strip_prefix [] s = some s
strip_prefix (c ∷ marker) [] = none
strip_prefix (c ∷ marker) (d ∷ s) =
    let rest = strip_prefix marker s in if c == d then rest else none

pub strip_prefix-append : (s t : Text) → strip_prefix s (s ++ t) ≡ some t
unfolding strip_prefix
strip_prefix-append [] t = refl
strip_prefix-append (c ∷ s) t =
    let here : c == c ≡ true = ground arith in rw (here, strip_prefix-append s t) refl

-- `split_once`: what stands before the first `q`, and after it
unfoldable pub split_once : ℕ → Text → Option (Text × Text)
split_once q [] = none
split_once q (c ∷ s) =
    let rest = split_once q s in
    if c == q
    then some ([], s)
    else elim rest [ some parts ↦ some (c ∷ parts.0, parts.1) | none ↦ none ]

pub split_once-append : (q : ℕ) (s t : Text) → Lacks q s → split_once q (s ++ (q ∷ t)) ≡ some (s, t)
unfolding split_once
split_once-append q [] t lacks = let here : q == q ≡ true = ground arith in rw here refl
split_once-append q (c ∷ s) t (differs, lacks) = rw (differs, split_once-append q s t lacks) refl

-- `rsplit_once`: the same at the last `q`
unfoldable pub rsplit_once : ℕ → Text → Option (Text × Text)
rsplit_once q [] = none
rsplit_once q (c ∷ s) = elim (rsplit_once q s) [
  | some parts ↦ some (c ∷ parts.0, parts.1)
  | none ↦ if c == q then some ([], s) else none
]

rsplit_once-none : (q : ℕ) (s : Text) → Lacks q s → rsplit_once q s ≡ none
unfolding rsplit_once
rsplit_once-none q [] lacks = refl
rsplit_once-none q (c ∷ s) (differs, lacks) =
    rw (rsplit_once, rsplit_once-none q s lacks, differs) refl

pub rsplit_once-append :
    (q : ℕ) (s t : Text) → Lacks q t → rsplit_once q (s ++ (q ∷ t)) ≡ some (s, t)
unfolding rsplit_once
rsplit_once-append q [] t lacks =
    let here : q == q ≡ true = ground arith in
    rw (rsplit_once, rsplit_once-none q t lacks, here) refl
rsplit_once-append q (c ∷ s) t lacks = rw (rsplit_once, rsplit_once-append q s t lacks) refl
