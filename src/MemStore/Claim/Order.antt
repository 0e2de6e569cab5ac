-- ===== src/MemStore/Claim/Order.antt =====
-- The order (run_at, id) by which claimOneLocked replaces `best` is a strict weak order, and tasks
-- that it does not tell apart have one id.
use gotasks.Prelude.{◌≡◌, true, false, ◌⊎◌, inl, inr, arith, Bool-cases}
use gotasks.Prelude.Text.{
  Text, text_eq, text_lt, text_lt_irrefl, text_lt_trans, text_lt_connected, text_eq_refl,
}
use gotasks.Task.{Task}
use gotasks.MemStore.Claim.{earlier}

pub earlier_irrefl : (t : Task) → earlier t t ≡ false
unfolding earlier
earlier_irrefl t = ground (arith, text_lt_irrefl t.id)

pub earlier_trans : (t u v : Task) → earlier t u ≡ true → earlier u v ≡ true → earlier t v ≡ true
unfolding earlier
earlier_trans t u v h k = ground (arith, text_lt_trans t.id u.id v.id)

pub earlier_connected :
    (t u : Task) → earlier t u ≡ false → earlier u t ≡ false → text_eq t.id u.id ≡ true
unfolding earlier
earlier_connected t u h k =
    let e : t.id ≡ u.id = text_lt_connected t.id u.id (ground arith) (ground arith) in
    rw e (text_eq_refl u.id)

text_lt_cotrans : (a b c : Text) → text_lt a b ≡ true → (text_lt a c ≡ true) ⊎ (text_lt c b ≡ true)
text_lt_cotrans a b c h = elim (Bool-cases (text_lt a c)) [
  | inl less ↦ inl less
  | inr not_less ↦ elim (Bool-cases (text_lt c a)) [
    | inl more ↦ inr (text_lt_trans c a b more h)
    | inr not_more ↦ inr (rw (← text_lt_connected a c not_less not_more) h)
  ]
]

-- What comes between: a task that is earlier than another is earlier than a third, or the third is
-- earlier than the other.
pub earlier_cotrans :
    (t u v : Task) → earlier t u ≡ true → (earlier t v ≡ true) ⊎ (earlier v u ≡ true)
unfolding earlier
earlier_cotrans t u v h = ground (arith, text_lt_cotrans t.id u.id v.id)
