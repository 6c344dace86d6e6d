-- ===== src/Controller/Revisions/Names.antt =====
-- The names of revisions, `ensureRevision` of internal/controller/pacto_controller.go: their length, and
-- which contracts they tell apart.
use pacto_operator.Prelude.{
  String, ◌<>◌, ◌≡◌, ◌↔◌, refl, ap, ◌∙◌, sym, arith, ℕ, zero, suc, ◌+◌, ◌≤◌, ◌<◌, ◌⊎◌, inl, inr,
  take, replace_char,
}
use Prim.Native.Char.{Char}
use native.Mathlib.Decide.{dec_lt}
use pacto_operator.Prelude.TextLaws.{chars}
use text.Mathlib.TextLemmas.{nil-append, cons-append, append_assoc, append_cancel_left}
use pacto_operator.Api.Pacto.{Pacto}
use pacto_operator.Controller.Revisions.{LoadResult, version_of, revision_name}

chars-take_le : (n : ℕ) (s : String) → chars (take n s) ≤ n
unfolding chars take
chars-take_le zero s = omega arith
chars-take_le (suc n) String.[] = omega arith
chars-take_le (suc n) (String.◌∷◌ x s) = omega (arith, chars-take_le n s)

take_all : (n : ℕ) (s : String) → chars s ≤ n → take n s ≡ s
unfolding chars take
take_all zero String.[] h = refl
take_all zero (String.◌∷◌ x s) h = absurd (omega arith)
take_all (suc n) String.[] h = refl
take_all (suc n) (String.◌∷◌ x s) h = ap (String.◌∷◌ x) (take_all n s (omega arith))

chars-append : (s t : String) → chars (s <> t) ≡ chars s + chars t
unfolding chars
chars-append String.[] t = rw nil-append (omega arith)
chars-append (String.◌∷◌ x s) t = rw cons-append (omega (arith, chars-append s t))

chars-replace_char : (c : ℕ) (d : Char) (s : String) → chars (replace_char c d s) ≡ chars s
unfolding chars replace_char
chars-replace_char c d String.[] = refl
chars-replace_char c d (String.◌∷◌ x s) = omega (arith, chars-replace_char c d s)

-- A name before it is cut: a stem, which the Pacto and the version make, and a part of the hash.
cut_short :
    (stem : String) (a : String) → chars stem ≤ 246 → take 253 (stem <> take 7 a) ≡ stem <> take 7 a
cut_short stem a h =
    take_all 253 (stem <> take 7 a) (omega (arith, chars-append stem (take 7 a), chars-take_le 7 a))

-- The part of a name before the hash.
stem : Pacto → String → String
stem p version = p.name <> "-" <> replace_char 46 "-" version <> "-"

regroup : (a b c d e : String) → a <> b <> c <> d <> e ≡ (a <> b <> c <> d) <> e
regroup a b c d e = sym (
    append_assoc a (b <> c <> d) e
    ∙ ap (λ t. a <> t) (append_assoc b (c <> d) e ∙ ap (λ t. b <> t) (append_assoc c d e)))

revision_name_lem :
    (sha256 : String → String) (p : Pacto) (lr : LoadResult)
    → revision_name sha256 p lr ≡ take 253 (stem p (version_of lr) <> take 7 (sha256 lr.raw_yaml))
unfolding revision_name stem
revision_name_lem sha256 p lr =
    ap (take 253)
      (regroup p.name "-" (replace_char 46 "-" (version_of lr)) "-" (take 7 (sha256 lr.raw_yaml)))

chars_dash : chars "-" ≡ 1
unfolding chars
chars_dash = refl

chars-stem :
    (p : Pacto) (version : String) → chars (stem p version) ≡ chars p.name + chars version + 2
unfolding stem
chars-stem p version =
    let dashed = replace_char 46 "-" version in
    omega (
      arith,
      chars-append p.name ("-" <> dashed <> "-"),
      chars-append "-" (dashed <> "-"),
      chars-append dashed "-",
      chars-replace_char 46 "-" version,
      chars_dash,
    )

-- For every hash, Pacto and two loaded contracts of one version: the name of a revision has at most 253
-- characters, and, unless the names of the Pacto and the version are together longer than 244 characters,
-- the two contracts have one revision's name exactly when their hashes begin with the same 7 characters.
pub revision_name_bounds :
    (sha256 : String → String) (p : Pacto) (a b : LoadResult)
    → version_of a ≡ version_of b
    → (chars (revision_name sha256 p a) ≤ 253)
      × ((244 < chars p.name + chars (version_of a))
          ⊎ ((revision_name sha256 p a ≡ revision_name sha256 p b)
              ↔ (take 7 (sha256 a.raw_yaml) ≡ take 7 (sha256 b.raw_yaml))))
revision_name_bounds sha256 p a b same =
    (short, by_length (dec_lt 244 (chars p.name + chars (version_of a))))
  where
    short : chars (revision_name sha256 p a) ≤ 253
    short =
        rw (revision_name_lem sha256 p a)
          (chars-take_le 253 (stem p (version_of a) <> take 7 (sha256 a.raw_yaml)))

    whole :
        (lr : LoadResult)
        → chars p.name + chars (version_of lr) ≤ 244
        → revision_name sha256 p lr ≡ stem p (version_of lr) <> take 7 (sha256 lr.raw_yaml)
    whole lr h =
        revision_name_lem sha256 p lr
        ∙ cut_short (stem p (version_of lr)) (sha256 lr.raw_yaml)
            (omega (arith, chars-stem p (version_of lr)))

    tells :
        chars p.name + chars (version_of a) ≤ 244
        → (revision_name sha256 p a ≡ revision_name sha256 p b)
          ↔ (take 7 (sha256 a.raw_yaml) ≡ take 7 (sha256 b.raw_yaml))
    tells h =
        let whole_a = whole a h in
        let whole_b =
          whole b (rw⁻¹ same h) ∙ ap (λ v. stem p v <> take 7 (sha256 b.raw_yaml)) (sym same) in
        (
          λ e. append_cancel_left (stem p (version_of a)) _ _ (sym whole_a ∙ e ∙ whole_b),
          λ e. whole_a ∙ ap (λ t. stem p (version_of a) <> t) e ∙ sym whole_b,
        )

    by_length :
        Dec (244 < chars p.name + chars (version_of a))
        → (244 < chars p.name + chars (version_of a))
          ⊎ ((revision_name sha256 p a ≡ revision_name sha256 p b)
              ↔ (take 7 (sha256 a.raw_yaml) ≡ take 7 (sha256 b.raw_yaml)))
    by_length (yes long) = inl long
    by_length (no fits) = inr (tells (omega arith))
