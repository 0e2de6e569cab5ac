-- ===== src/Fetcher/Handshake.antt =====
-- The handshake of fetcher.go over memstore: no task runs without its lease.
use gotasks.Task.{err, Result, ok, lease_lost, running, Duration, Time, before, Task}
use gotasks.Prelude.Text.{text_eq_refl}
use gotasks.Prelude.Int.{◌+ℤ◌}
use gotasks.Prelude.{
  if◌then◌else◌, ◌⊎◌, false, Bool, Bool-cases, [], ◌≡◌, true, some, ◌∷◌, inl, inr, ◌∙◌, Option,
  refl, none,
}
use gotasks.Options.{second}
use gotasks.MemStore.TaskMap.{find-id, find-put}
use gotasks.MemStore.State.{find_task, held, Store}
use gotasks.MemStore.Invariant.Calls.{held-found}
use gotasks.MemStore.Finalize.{extended, write, extend_lease}
use gotasks.MemStore.Api.{mem_api}
use gotasks.Manager.State.{Manager}
use gotasks.Fetcher.Start.{extend_attempts, start_of_work}

-- The stored task is running under the copy's token, and is kept with the new lease alone changed.
pub record Renewed (t : Task) (until : Time) (s s' : Store) : Type 0 where
  pub row : Task
  pub found : find_task t.id s.tasks ≡ some row
  pub runs : row.status ≡ running
  pub fenced_by : row.lease_token ≡ t.lease_token
  pub kept : find_task t.id s'.tasks ≡ some (record row { leased_until = until })

abbrev pub Handshaken : Task → Duration → Time → Time → Store → Store × Option Task → Type 0
Handshaken t lease now at s (s', none) = s' ≡ s
Handshaken t lease now at s (s', some t') =
    (before now t.leased_until ≡ true)
    × (t' ≡ record t { leased_until = at +ℤ lease })
    × Renewed t (at +ℤ lease) s s'

renewed :
    (t row : Task) (until : Time) (s : Store)
    → held t.id t.lease_token s.tasks ≡ some row
    → Renewed t until s (write (record row { leased_until = until }) s)
renewed t row until s h =
    let (found, runs, token) = held-found t.id t.lease_token s.tasks row h in
    record {
      row = row;
      found = found;
      runs = runs;
      fenced_by = token;
      kept =
          find-put t.id (record row { leased_until = until }) s.tasks
          ∙ rw (find-id t.id s.tasks row found) (rw (text_eq_refl t.id) refl);
    }

-- extend_lease has two answers.
extend_lease-cases :
    (t : Task) (lease : Duration) (at : Time) (s : Store)
    → (extend_lease t lease at s ≡ (s, err lease_lost))
      ⊎ ((row : Task) × (held t.id t.lease_token s.tasks ≡ some row)
          × (extend_lease t lease at s
              ≡ (write (record row { leased_until = at +ℤ lease }) s, ok (at +ℤ lease))))
unfolding extend_lease
extend_lease-cases t lease at s = go s.force_lease_lost (held t.id t.lease_token s.tasks) refl
  where
    go :
        (forced : Bool) (o : Option Task)
        → held t.id t.lease_token s.tasks ≡ o
        → (◌≡◌ {A = Store × Result Time}
            (if forced then (s, err lease_lost) else extended lease at s o)
            (s, err lease_lost))
          ⊎ ((row : Task) × (held t.id t.lease_token s.tasks ≡ some row)
              × ((if forced then (s, err lease_lost) else extended lease at s o)
                  ≡ (write (record row { leased_until = at +ℤ lease }) s, ok (at +ℤ lease))))
    go true o e = inl refl
    go false none e = inl refl
    go false (some row) e = inr (row, e, refl)

attempts-Handshaken :
    (t : Task) (lease : Duration) (now at later : Time) (s : Store)
    → before now t.leased_until ≡ true
    → Handshaken t lease now at s (extend_attempts mem_api t lease (at ∷ later ∷ []) s)
unfolding extend_attempts
attempts-Handshaken t lease now at later s early = elim (extend_lease-cases t lease at s) [
  | inl e ↦ rw e refl
  | inr (row, h, e) ↦ rw e (early, refl, renewed t row (at +ℤ lease) s h)
]

-- Over memstore, a worker runs a fetched task only if the lease has not ended by its own clock and
-- the stored task is still running under the lease token of the fetched copy; its lease is then
-- extended in the store and in the copy, and nothing else in the stored task changes. A task that is
-- dropped leaves the store as it was.
pub start_of_work-Handshaken :
    (m : Manager) (t : Task) (now first second : Time) (s : Store)
    → Handshaken t m.cfg.lease_time now first s (start_of_work mem_api m t now first second s)
unfolding start_of_work
start_of_work-Handshaken m t now first second s = elim (Bool-cases (before now t.leased_until)) [
  | inl early ↦ rw early (attempts-Handshaken t m.cfg.lease_time now first second s early)
  | inr late ↦ rw late refl
]
