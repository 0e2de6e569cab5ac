-- ===== src/Manager/Handlers.antt =====
-- What RegisterHandler makes of a typed handler: the payload is decoded for it, the middleware is
-- wrapped around it, and what it returns is encoded as the task's result.
--
-- Parameters: json.Unmarshal into the payload's type, which starts from its zero value, json.Marshal
-- of the returned value, and of the map {"value": b} for the bytes of a value.
pub mod Results
use gotasks.Manager.Enqueue.{trim_space}
use gotasks.Prelude.{List, [], ◌∷◌, ◌++◌, Option, none, some, if◌then◌else◌, ◌==◌, ◌||◌}
use gotasks.Prelude.Text.{Text, text_eq, bytes}
use gotasks.Task.{Task}
use gotasks.Worker.{HandlerRun, returns, errors, panics}

-- A value, or what went wrong.
pub data Parsed {ℓ} (A : Type ℓ) : Type ℓ where
  parsed : A → Parsed A
  unparsed : (message : Text) → Parsed A

-- What a HandlerFunc returns: a value, or nil, or an error; or it panics.
pub data Returned {ℓ} (V : Type ℓ) : Type ℓ where
  returned : Option V → Returned V
  failed panicked : (message : Text) → Returned V

abbrev pub HandlerFunc : Type 0 → Type 0
HandlerFunc V = Task → (payload : Text) → Returned V

abbrev pub Middleware : Type 0 → Type 0
Middleware V = HandlerFunc V → HandlerFunc V

abbrev pub decoded : {P V : Type 0} → (P → Returned V) → Parsed P → Returned V
decoded run (parsed p) = run p
decoded run (unparsed e) = failed (bytes "decode payload: " ++ e)

unfoldable pub typed :
    {P V : Type 0}
    → (unmarshal : Text → Parsed P) → (zero_payload : P) → (Task → P → Returned V)
    → HandlerFunc V
typed unmarshal zero_payload handler t [] = handler t zero_payload
typed unmarshal zero_payload handler t (c ∷ cs) = decoded (handler t) (unmarshal (c ∷ cs))

-- From the last one on, so that the first is the outermost.
unfoldable pub wrapped : {V : Type 0} → List (Middleware V) → HandlerFunc V → HandlerFunc V
wrapped [] raw = raw
wrapped (mw ∷ mws) raw = mw (wrapped mws raw)

-- A result that is no JSON object, nor null, is put into one.
abbrev pub in_object : (value_object : Text → Text) → Text → (trimmed : Text) → Text
in_object value_object b [] = b
in_object value_object b (c ∷ cs) =
    if (c == b'{') || text_eq (c ∷ cs) (bytes "null") then b else value_object b

abbrev pub encoded : (value_object : Text → Text) → Parsed Text → HandlerRun
encoded value_object (unparsed e) = errors (bytes "encode result: " ++ e)
encoded value_object (parsed b) = returns (in_object value_object b (trim_space b))

unfoldable pub encode_result :
    {V : Type 0}
    → (marshal : V → Parsed Text) → (value_object : Text → Text) → Returned V
    → HandlerRun
encode_result marshal value_object (failed e) = errors e
encode_result marshal value_object (panicked e) = panics e
encode_result marshal value_object (returned none) = returns []
encode_result marshal value_object (returned (some v)) = encoded value_object (marshal v)

-- The handler entry's fn.
unfoldable pub run_handler :
    {P V : Type 0}
    → (unmarshal : Text → Parsed P) → (zero_payload : P) → (marshal : V → Parsed Text)
    → (value_object : Text → Text) → List (Middleware V)
    → (Task → P → Returned V)
    → Task
    → HandlerRun
run_handler unmarshal zero_payload marshal value_object mws handler t =
    encode_result marshal value_object
      (wrapped mws (typed unmarshal zero_payload handler) t t.payload)
