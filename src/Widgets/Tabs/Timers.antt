-- ===== src/Widgets/Tabs/Timers.antt =====
-- The timers of the tabs.
use metadata.Prelude.{
  ℕ, zero, suc, ◌+◌, ◌≡◌, refl, ◌<◌, false, not, List, [], ◌∷◌, ◌++◌, ◌==◌, ltb, length, filter_by,
  arith, All, Bool-cases, inl, inr, length-append, ap, ◌∙◌,
}
use metadata.Prelude.Texts.{Text}
use metadata.Widgets.Tabs.{
  selected_index, updated, component_will_unmount, component_did_update, component_did_mount,
  construct, set_update_indicator_timeout,
}

-- The indicator's tab is always one of the tabs, when there are any.
pub selected_index-bound :
    (tabs : List Text) (selected : ℕ) → 0 < length tabs → selected_index tabs selected < length tabs
unfolding selected_index
selected_index-bound tabs selected h = elim (Bool-cases (ltb selected (length tabs))) [
  | inl e ↦ rw e (ground arith)
  | inr e ↦ rw e h
]

abbrev IsPositive : ℕ → Type 0
IsPositive n = 0 < n

All-append_one : (ns : List ℕ) (n : ℕ) → All IsPositive ns → 0 < n → All IsPositive (ns ++ n ∷ [])
All-append_one [] n h p = (p, h)
All-append_one (x ∷ ns) n (q, h) p = (q, All-append_one ns n h p)

updated-IsPositive :
    (n : ℕ)
    → All IsPositive (updated n).pending
      × (0 < (updated n).next_handle)
      × ((updated n).timeout_handle ≡ 0)
unfolding updated component_did_update component_did_mount construct set_update_indicator_timeout
updated-IsPositive zero = ((ground arith, tt), ground arith, refl)
updated-IsPositive (suc n) =
    let (h, next, handle) = updated-IsPositive n in
    (All-append_one (updated n).pending (updated n).next_handle h next, omega arith, handle)

length-updated : (n : ℕ) → length (updated n).pending ≡ n + 1
unfolding updated component_did_update component_did_mount construct set_update_indicator_timeout
length-updated zero = refl
length-updated (suc n) =
    length-append (updated n).pending ((updated n).next_handle ∷ [])
    ∙ ap (λ k. k + 1) (length-updated n)
    ∙ omega arith

filter_by-IsPositive : (ns : List ℕ) → All IsPositive ns → filter_by (λ h. not (h == 0)) ns ≡ ns
filter_by-IsPositive [] h = refl
filter_by-IsPositive (x ∷ ns) (q, h) =
    let kept : (x == 0) ≡ false = ground arith in rw kept (λ k. x ∷ filter_by-IsPositive ns h k)

-- Leaving the page cancels no timer: those that mounting and updating started are all still to run,
-- though the component is gone.
pub updated-unmounted :
    (n : ℕ)
    → ((component_will_unmount (updated n)).pending ≡ (updated n).pending)
      × (length (component_will_unmount (updated n)).pending ≡ n + 1)
unfolding component_will_unmount
updated-unmounted n =
    let (h, next, handle) = updated-IsPositive n in
    let kept : filter_by (λ t. not (t == (updated n).timeout_handle)) (updated n).pending
        ≡ (updated n).pending =
      rw handle (filter_by-IsPositive (updated n).pending h) in
    (kept, ap length kept ∙ length-updated n)
