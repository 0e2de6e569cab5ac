-- ===== src/Manager/Handlers/Results.antt =====
-- What RegisterHandler guarantees of the results of handlers.
use mathlib.Core.Path.{subst}
use gotasks.Manager.Enqueue.{trim_space, trim_left, trim_right}
use gotasks.Manager.Handlers.{
  Parsed, parsed, unparsed, Returned, returned, failed, panicked, Middleware, typed, wrapped,
  in_object, encoded, encode_result, run_handler,
}
use gotasks.Prelude.{
  ◌≡◌, refl, arith, true, false, Bool-cases, ◌⊎◌, inl, inr, List, [], ◌∷◌, ◌++◌, none, some, ◌==◌,
  ◌||◌, Bool,
}
use gotasks.Prelude.Text.{Text, text_eq, bytes}
use gotasks.Task.{Task}
use gotasks.Worker.{Handled, invoke, value, fault}

abbrev pub is_plain : Text → Bool
is_plain [] = true
is_plain (c ∷ cs) = (c == b'{') || text_eq (c ∷ cs) (bytes "null")

-- But for blanks around it: nothing, an object, or null.
abbrev pub IsDocument : Text → Type 0
IsDocument b = is_plain (trim_space b) ≡ true

-- What becomes of a value.
abbrev pub Encoded : (value_object : Text → Text) → Parsed Text → Handled → Type 0
Encoded value_object (unparsed e) h = h ≡ fault (bytes "encode result: " ++ e)
Encoded value_object (parsed b) h =
    (IsDocument b × (h ≡ value b))
    ⊎ ((is_plain (trim_space b) ≡ false)
        × (h ≡ value (value_object b))
        × IsDocument (value_object b))

abbrev pub HandledAs :
    {V : Type 0} → (V → Parsed Text) → (value_object : Text → Text) → Returned V → Handled → Type 0
HandledAs marshal value_object (failed e) h = h ≡ fault e
HandledAs marshal value_object (panicked e) h = h ≡ fault (bytes "panic: " ++ e)
HandledAs marshal value_object (returned none) h = h ≡ value []
HandledAs marshal value_object (returned (some v)) h = Encoded value_object (marshal v) h

in_object-Encoded :
    (value_object : Text → Text) (b t : Text)
    → trim_space b ≡ t
    → ((b : Text) → IsDocument (value_object b))
    → Encoded value_object (parsed b) (value (in_object value_object b t))
in_object-Encoded value_object b [] e k = inl (rw e refl, refl)
in_object-Encoded value_object b (c ∷ cs) e k = elim (Bool-cases (is_plain (c ∷ cs))) [
  | inl plain ↦ inl (rw (e, plain) refl, rw plain refl)
  | inr other ↦ inr (rw (e, other) refl, rw other refl, k b)
]

encoded-Encoded :
    (value_object : Text → Text) (p : Parsed Text)
    → ((b : Text) → IsDocument (value_object b))
    → Encoded value_object p (invoke (encoded value_object p))
unfolding invoke
encoded-Encoded value_object (unparsed e) k = refl
encoded-Encoded value_object (parsed b) k = in_object-Encoded value_object b (trim_space b) refl k

module _ {V : Type 0} (marshal : V → Parsed Text) (value_object : Text → Text)
    (k : (b : Text) → IsDocument (value_object b)) where
  encode_result-HandledAs :
      (x : Returned V)
      → HandledAs marshal value_object x (invoke (encode_result marshal value_object x))
  unfolding encode_result invoke
  encode_result-HandledAs (failed e) = refl
  encode_result-HandledAs (panicked e) = refl
  encode_result-HandledAs (returned none) = refl
  encode_result-HandledAs (returned (some v)) = encoded-Encoded value_object (marshal v) k

  value-same : (a b : Text) (h : Handled) → h ≡ value a → h ≡ value b → a ≡ b
  value-same a b h e f = ground arith

  Encoded-IsDocument :
      (p : Parsed Text) (h : Handled) (r : Text)
      → Encoded value_object p h
      → h ≡ value r
      → IsDocument r
  Encoded-IsDocument (unparsed e) h r d f = absurd (ground arith)
  Encoded-IsDocument (parsed b) h r (inl (doc, e)) f = subst IsDocument (value-same b r h e f) doc
  Encoded-IsDocument (parsed b) h r (inr (_, e, doc)) f =
      subst IsDocument (value-same (value_object b) r h e f) doc

  HandledAs-IsDocument :
      (x : Returned V) (h : Handled) (r : Text)
      → HandledAs marshal value_object x h
      → h ≡ value r
      → IsDocument r
  HandledAs-IsDocument (failed e) h r d f = absurd (ground arith)
  HandledAs-IsDocument (panicked e) h r d f = absurd (ground arith)
  HandledAs-IsDocument (returned none) h r d f =
      subst IsDocument (value-same [] r h d f) (unfold trim_space trim_left trim_right in refl)
  HandledAs-IsDocument (returned (some v)) h r d f = Encoded-IsDocument (marshal v) h r d f

-- Whatever the handler and the middleware return: an error or a panic is a failed run, with its
-- message; no value is an empty result; a value is recorded as json.Marshal encodes it, if that is an
-- object or null, or else inside an object, or the run fails if it cannot be encoded. If json.Marshal
-- encodes a map as an object, then every result is an object, null or empty.
pub run_handler-HandledAs :
    {P V : Type 0} (unmarshal : Text → Parsed P) (zero_payload : P) (marshal : V → Parsed Text)
    (value_object : Text → Text) (mws : List (Middleware V)) (handler : Task → P → Returned V)
    (t : Task)
    → ((b : Text) → IsDocument (value_object b))
    → HandledAs marshal value_object
        (wrapped mws (typed unmarshal zero_payload handler) t t.payload)
        (invoke (run_handler unmarshal zero_payload marshal value_object mws handler t))
      × ((r : Text)
          → invoke (run_handler unmarshal zero_payload marshal value_object mws handler t) ≡ value r
          → IsDocument r)
unfolding run_handler
run_handler-HandledAs unmarshal zero_payload marshal value_object mws handler t k =
    let x = wrapped mws (typed unmarshal zero_payload handler) t t.payload in
    let h = encode_result-HandledAs marshal value_object k x in
    (
      h,
      (λ r e.
          HandledAs-IsDocument marshal value_object k x
            (invoke (encode_result marshal value_object x)) r h e),
    )
