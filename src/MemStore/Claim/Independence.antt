-- ===== src/MemStore/Claim/Independence.antt =====
-- Go visits a map in no fixed order. The choice of claimOneLocked does not depend on it.
use gotasks.Task.{Time, Task, ClaimOptions}
use gotasks.Prelude.Text.{Text, text_eq-eq}
use gotasks.Prelude.{List, sym, ◌≡◌, ◌∙◌, ap, some, ◌⊎◌, none, true, inr, inl}
use gotasks.MemStore.TaskMap.{DistinctIds, find_self, All-find}
use gotasks.MemStore.State.{find_task}
use gotasks.MemStore.Claim.Order.{earlier_connected}
use gotasks.MemStore.Claim.Choice.{pick-cases, IsFirst, NoneClaimable}
use gotasks.MemStore.Claim.{pick, claimable}

module _ (opts : ClaimOptions) (now : Time) where
  abbrev SameMap : List Task → List Task → Type 0
  SameMap ts us = (id : Text) → find_task id ts ≡ find_task id us

  absent :
      (ts us : List Task) (b : Task)
      → SameMap ts us
      → NoneClaimable opts now ts
      → find_task b.id us ≡ some b
      → claimable opts now b ≡ true
      → ⊥
  absent ts us b same n f c = let e = All-find _ b.id ts b n (same b.id ∙ f) in cc

  -- Two lists of tasks with distinct ids that hold the same map are served alike: the loop picks
  -- the same task from both, or none from either.
  pub pick-SameMap :
      (ts us : List Task)
      → DistinctIds ts
      → DistinctIds us
      → ((id : Text) → find_task id ts ≡ find_task id us)
      → pick opts now none ts ≡ pick opts now none us
  pick-SameMap ts us dt du same =
      decide (pick-cases opts now _ ts (find_self ts dt))
        (pick-cases opts now _ us (find_self us du))
    where
      Choice : List Task → Type 0
      Choice xs =
          (NoneClaimable opts now xs × (pick opts now none xs ≡ none))
          ⊎ ((b : Task) × (find_task b.id xs ≡ some b)
              × IsFirst opts now b xs
              × (pick opts now none xs ≡ some b))

      decide : Choice ts → Choice us → pick opts now none ts ≡ pick opts now none us
      decide (inl (_, e)) (inl (_, e')) = e ∙ sym e'
      decide (inl (n, _)) (inr (b, f, first, _)) =
          absurd (absent ts us b same n f first.is_claimable)
      decide (inr (b, f, first, _)) (inl (n, _)) =
          absurd (absent us ts b (λ id. sym (same id)) n f first.is_claimable)
      decide (inr (b, f, first, e)) (inr (b', f', first', e')) =
          let later = All-find _ b'.id ts b' first.is_least (same b'.id ∙ f') first'.is_claimable in
          let later' =
            All-find _ b.id us b first'.is_least (sym (same b.id) ∙ f) first.is_claimable in
          let one_id = text_eq-eq b.id b'.id (earlier_connected b b' later' later) in
          e ∙ sym f ∙ ap (λ id. find_task id ts) one_id ∙ same b'.id ∙ f' ∙ sym e'
