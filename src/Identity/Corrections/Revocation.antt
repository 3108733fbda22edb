-- ===== src/Identity/Corrections/Revocation.antt =====
-- What an appended revoke entry does to the decisions of v2/src/footballai_v2/execution/ai2c/corrections.py.
use football_ai.Prelude.{
  ℕ, ◌≡◌, refl, ◌∙◌, Bool, false, not, ◌&&◌, ◌||◌, some, none, Option, List, [], ◌∷◌, ◌++◌, ◌==◌,
  arith,
}
use football_ai.Identity.Corrections.{
  CorrectionEntry, CorrectionAction, revoke, must_link, cannot_link, exclude, name_revoked,
  revoked_of, filter, live, is_live, has,
}

module _ {ℓ} {A : Type ℓ} where
  filter-append_rejected :
      (p : A → Bool) (xs : List A) (x : A) → p x ≡ false → filter p (xs ++ x ∷ []) ≡ filter p xs
  unfolding filter
  filter-append_rejected p [] x h = rw h refl
  filter-append_rejected p (y ∷ xs) x h = rw (filter-append_rejected p xs x h) refl

  filter-filter :
      (p q r : A → Bool) (xs : List A)
      → ((x : A) → r x ≡ (p x && q x))
      → filter r xs ≡ filter q (filter p xs)
  unfolding filter
  filter-filter p q r [] h = refl
  filter-filter p q r (x ∷ xs) h = ground (arith, h x, filter-filter p q r xs h)

name_revoked-append :
    (a : CorrectionAction) (t : Option ℕ) (xs : List ℕ) (s : ℕ)
    → name_revoked a t (xs ++ s ∷ []) ≡ name_revoked a t xs ++ s ∷ []
name_revoked-append revoke (some n) xs s = refl
name_revoked-append revoke none xs s = refl
name_revoked-append must_link t xs s = refl
name_revoked-append cannot_link t xs s = refl
name_revoked-append exclude t xs s = refl

revoked_of-append :
    (es : List CorrectionEntry) (e : CorrectionEntry) (s : ℕ)
    → e.action ≡ revoke
    → e.revokes_sequence ≡ some s
    → revoked_of (es ++ e ∷ []) ≡ revoked_of es ++ s ∷ []
unfolding revoked_of
revoked_of-append [] e s a t = rw a (rw t refl)
revoked_of-append (x ∷ es) e s a t =
    rw (revoked_of-append es e s a t)
      (name_revoked-append x.action x.revokes_sequence (revoked_of es) s)

has-append : (xs : List ℕ) (s x : ℕ) → has (xs ++ s ∷ []) x ≡ (has xs x || s == x)
has-append [] s x = ground arith
has-append (y ∷ xs) s x = ground (arith, has-append xs s x)

-- Appending a revoke entry withdraws the decisions of the sequence that it names, and no others: the
-- live entries are those that were live before, less that sequence, in their order.
pub live-revoke :
    (entries : List CorrectionEntry) (e : CorrectionEntry) (s : ℕ)
    → e.action ≡ revoke
    → e.revokes_sequence ≡ some s
    → live (entries ++ e ∷ []) ≡ filter (λ x. not (s == x.sequence)) (live entries)
unfolding live
live-revoke entries e s a t = rw (revoked_of-append entries e s a t) (
    filter-append_rejected (is_live (revoked_of entries ++ s ∷ [])) entries e (rw a refl)
    ∙ filter-filter (is_live (revoked_of entries)) (λ x. not (s == x.sequence)) _ entries
        (λ x. ground (arith, has-append (revoked_of entries) s x.sequence)))
