-- ===== src/Sdk/Retrying.antt =====
-- What a call that is made again where it fails comes to.
use metadata.Prelude.{ℕ, zero, suc, ◌≡◌, refl, ◌∙◌, ap, ◌⊎◌, inl, inr}
use metadata.Prelude.Texts.{Text}
use metadata.Prelude.Results.{Result, ok, err, Result-cases}
use metadata.Sdk.{Store, retry, retried}

retry-next :
    {S A : Type 0} (n : ℕ) (f : S → S × Result Text A) (s : S) (x : Text)
    → (f s).1 ≡ err x
    → retry (suc n) f s ≡ retry n f (f s).0
unfolding retry
retry-next n f s x e = rw (e, retry) refl

retry-ok :
    {S A : Type 0} (n : ℕ) (f : S → S × Result Text A) (s : S) (a : A)
    → (f s).1 ≡ ok a
    → retry n f s ≡ f s
unfolding retry
retry-ok zero f s a e = refl
retry-ok (suc n) f s a e = rw (e, retry) refl

retry-last :
    {S A : Type 0} (n : ℕ) (f : S → S × Result Text A) (s : S) → (t : S) × (retry n f s ≡ f t)
unfolding retry
retry-last zero f s = (s, refl)
retry-last (suc n) f s = elim (Result-cases (f s).1) [
  | inl (a, e) ↦ (s, retry-ok (suc n) f s a e)
  | inr (x, e) ↦ let (t, last) = retry-last n f (f s).0 in (t, retry-next n f s x e ∙ last)
]

-- What every call keeps, all of them keep together.
retry-kept :
    {S A C : Type 0} (n : ℕ) (f : S → S × Result Text A) (s : S) (contents : S → C)
    → ((t : S) → contents (f t).0 ≡ contents t)
    → contents (retry n f s).0 ≡ contents s
unfolding retry
retry-kept zero f s contents h = h s
retry-kept (suc n) f s contents h = elim (Result-cases (f s).1) [
  | inl (a, e) ↦ ap (λ p. contents p.0) (retry-ok (suc n) f s a e) ∙ h s
  | inr (x, e) ↦
      ap (λ p. contents p.0) (retry-next n f s x e) ∙ retry-kept n f (f s).0 contents h ∙ h s
]

-- A call that keeps the contents where it fails either keeps them, or its last try, which succeeds,
-- begins with them.
retry-once :
    {S A C : Type 0} (n : ℕ) (f : S → S × Result Text A) (s : S) (contents : S → C)
    → ((t : S) (x : Text) → (f t).1 ≡ err x → contents (f t).0 ≡ contents t)
    → (contents (retry n f s).0 ≡ contents s)
      ⊎ ((t : S) × (a : A) × (contents t ≡ contents s) × ((f t).1 ≡ ok a) × (retry n f s ≡ f t))
unfolding retry
retry-once zero f s contents h = elim (Result-cases (f s).1) [
  | inl (a, e) ↦ inr (s, a, refl, e, refl)
  | inr (x, e) ↦ inl (h s x e)
]
retry-once (suc n) f s contents h = elim (Result-cases (f s).1) [
  | inl (a, e) ↦ inr (s, a, refl, e, retry-ok (suc n) f s a e)
  | inr (x, e) ↦
      let next = retry-next n f s x e in
      elim (retry-once n f (f s).0 contents h) [
        | inl same ↦ inl (ap (λ p. contents p.0) next ∙ same ∙ h s x e)
        | inr (t, a, same, works, last) ↦ inr (t, a, same ∙ h s x e, works, next ∙ last)
      ]
]

-- The same for the calls of the client.
pub retried-kept :
    (st : Store) {A C : Type 0} (f : st.State → st.State × Result Text A) (s : st.State)
    (contents : st.State → C)
    → ((t : st.State) → contents (f t).0 ≡ contents t)
    → contents (retried st f s).0 ≡ contents s
unfolding retried
retried-kept st f s contents h = retry-kept (st.retries s) f s contents h

pub retried-last :
    (st : Store) {A : Type 0} (f : st.State → st.State × Result Text A) (s : st.State)
    → (t : st.State) × (retried st f s ≡ f t)
unfolding retried
retried-last st f s = retry-last (st.retries s) f s

pub retried-once :
    (st : Store) {A C : Type 0} (f : st.State → st.State × Result Text A) (s : st.State)
    (contents : st.State → C)
    → ((t : st.State) (x : Text) → (f t).1 ≡ err x → contents (f t).0 ≡ contents t)
    → (contents (retried st f s).0 ≡ contents s)
      ⊎ ((t : st.State) × (a : A) × (contents t ≡ contents s)
          × ((f t).1 ≡ ok a)
          × (retried st f s ≡ f t))
unfolding retried
retried-once st f s contents h = retry-once (st.retries s) f s contents h

-- A call that fails and is made again, and then succeeds.
pub retried-again :
    (st : Store) {A : Type 0} (f : st.State → st.State × Result Text A) (s : st.State) (n : ℕ)
    (x : Text) (a : A)
    → st.retries s ≡ suc n
    → (f s).1 ≡ err x
    → (f (f s).0).1 ≡ ok a
    → retried st f s ≡ f (f s).0
unfolding retried
retried-again st f s n x a again fails works =
    (λ i. retry (again i) f s) ∙ retry-next n f s x fails ∙ retry-ok n f (f s).0 a works
