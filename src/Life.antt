-- ===== src/Life.antt =====
-- The life of a task, as README.md and store.go describe it and both stores implement it: a machine
-- on what a task's identity, status, attempts, lease token and unique key are.
use gotasks.Task.{pending, Status, running, done, dead}
use gotasks.Prelude.Text.{Text}
use gotasks.Prelude.Int.{ℤ, pos, ltb_ℤ}
use gotasks.Prelude.{refl, ◌≡◌, ℕ, true, []}
use Prim.Native.Nat.{suc}

pub record Core : Type 0 where
  pub status : Status
  pub attempts : ℕ
  pub max_attempts : ℤ
  pub token : Text
  pub key : Text

-- A step of the machine.
pub data Step : Core → Core → Type 0 where
  first_claim :
      {c : Core} (token : Text)
      → c.status ≡ pending
      → Step c (record c { status = running; attempts = suc c.attempts; token = token })
  stale_claim :
      {c : Core} (token : Text)
      → c.status ≡ running
      → ltb_ℤ (pos c.attempts) c.max_attempts ≡ true
      → Step c (record c { status = running; attempts = suc c.attempts; token = token })
  completion :
      {c : Core} → c.status ≡ running → Step c (record c { status = done; token = []; key = [] })
  retry : {c : Core} → c.status ≡ running → Step c (record c { status = pending; token = [] })
  burial :
      {c : Core} → c.status ≡ running → Step c (record c { status = dead; token = []; key = [] })
  revival :
      {c : Core}
      → c.status ≡ dead
      → Step c (record c { status = pending; attempts = 0; token = [] })

-- Any number of steps.
pub data Reaches : Core → Core → Type 0 where
  here : (c : Core) → Reaches c c
  step : {a b c : Core} → Step a b → Reaches b c → Reaches a c

pub Reaches-trans : {a b c : Core} → Reaches a b → Reaches b c → Reaches a c
Reaches-trans (here c) r = r
Reaches-trans (step s q) r = step s (Reaches-trans q r)

-- No step leaves `done`.
done-final : {c d : Core} → Step c d → c.status ≡ done → ⊥
done-final (first_claim token p) h = cc
done-final (stale_claim token p _) h = cc
done-final (completion p) h = cc
done-final (retry p) h = cc
done-final (burial p) h = cc
done-final (revival p) h = cc

pub Reaches-done : {c d : Core} → Reaches c d → c.status ≡ done → d ≡ c
Reaches-done (here c) h = refl
Reaches-done (step s r) h = absurd (done-final s h)
