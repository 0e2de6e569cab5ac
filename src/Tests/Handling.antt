-- ===== src/Tests/Handling.antt =====
-- A handler that counts the bytes of its payload, under two layers of middleware.
use gotasks.Manager.Enqueue.{trim_space, trim_left, trim_right}
use gotasks.Manager.Handlers.{
  parsed, Returned, returned, failed, Middleware, typed, wrapped, run_handler,
}
use gotasks.Manager.Handlers.Results.{is_plain, IsDocument, HandledAs, run_handler-HandledAs}
use gotasks.Prelude.{ℕ, ◌≡◌, refl, List, [], ◌∷◌, ◌++◌, length, some, true}
use gotasks.Prelude.Decimal.{decimal}
use gotasks.Prelude.Text.{Text, bytes}
use gotasks.Task.{Task}
use gotasks.Tests.{first_claim}
use gotasks.Worker.{invoke, value}

abbrev size_handler : Task → Text → Returned ℕ
size_handler t p = returned (some (length p))

abbrev named_failure : Returned ℕ → Returned ℕ
named_failure (failed e) = failed (bytes "outer: " ++ e)
named_failure r = r

abbrev layers : List (Middleware ℕ)
layers = (λ next t p. named_failure (next t p)) ∷ (λ next t p. next t p) ∷ []

abbrev one_field : Text → Text
one_field b = b'{' ∷ (bytes "\"value\":" ++ (b ++ bytes "}"))

first_stays : (cs x : Text) → trim_right cs ≡ x → is_plain (trim_right (b'{' ∷ cs)) ≡ true
unfolding trim_right
first_stays cs [] e = rw e refl
first_stays cs (d ∷ ds) e = rw e refl

one_field-IsDocument : (b : Text) → IsDocument (one_field b)
unfolding trim_space trim_left
one_field-IsDocument b = first_stays _ _ refl

run_handler-HandledAs_example :
    HandledAs
      (λ n. parsed (decimal n))
      one_field
      (wrapped layers (typed (λ p. parsed p) [] size_handler) first_claim first_claim.payload)
      (invoke (
        run_handler
          (λ p. parsed p)
          []
          (λ n. parsed (decimal n))
          one_field
          layers
          size_handler
          first_claim))
    × ((r : Text)
        → invoke (
            run_handler
              (λ p. parsed p)
              []
              (λ n. parsed (decimal n))
              one_field
              layers
              size_handler
              first_claim)
          ≡ value r
        → IsDocument r)
run_handler-HandledAs_example =
    run_handler-HandledAs (λ p. parsed p) [] (λ n. parsed (decimal n)) one_field layers size_handler
      first_claim one_field-IsDocument
