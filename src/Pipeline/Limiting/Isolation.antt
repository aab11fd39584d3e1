-- ===== src/Pipeline/Limiting/Isolation.antt =====
-- src/Middleware.cpp: the clients of a limiter, requests of one among requests of others.
use cgi_web_server.Base.Assoc.{lookup, insert, lookup-insert_self, lookup-insert_ne}
use cgi_web_server.Base.{
  ℕ, ◌≡◌, refl, sym, ap, ap₂, ◌∙◌, inl, inr, Bool, true, false, Bool-cases, Option, none, some,
  List, [], ◌∷◌, if◌then◌else◌,
}
use cgi_web_server.Config.Keys.{KeyFunc}
use cgi_web_server.Http.Response.{Response, Exception, Result, returns, throws, Result-cases}
use cgi_web_server.Pipeline.Keys.{make_key}
use cgi_web_server.Pipeline.Limiting.{set_limiter, process_limiter}
use cgi_web_server.Pipeline.{
  nat_keys, Request, Limiter, fixed_window, token_bucket, State, Run, finished, crashed, Action,
  World, set_response, set_txn, new_transaction,
}
use cgi_web_server.Text.{Bytes, bytes_keys}

-- A request that comes to the limiter, and what it meets.
pub record Visit : Type 0 where
  pub world : World
  pub request : Request

-- What a visitor is told: the result, and its response with the headers.
abbrev pub Answer : Type 0
Answer = Result (Unit {0}) × Response

abbrev pub done : Action
done s = finished (returns tt) s

abbrev pub arrive : Request → State → State
arrive request s = set_txn (record new_transaction { request = request }) s

abbrev pub is_key : Bytes → Result Bytes → Bool
is_key key (throws x) = false
is_key key (returns own) = bytes_keys.beq own key

abbrev pub is_client : KeyFunc → Bytes → Visit → Bool
is_client key_func key v = is_key key (make_key key_func v.world.client_ip v.request)

-- The answer to a visit, if it is asked for, before those to later ones; none: the process did not
-- survive it.
abbrev with_later : Bool → Run → (State → List (Option Answer)) → List (Option Answer)
with_later asked crashed later = none ∷ []
with_later true (finished r s) later = some (r, s.txn.response) ∷ later s
with_later false (finished r s) later = later s

-- The answers to those of the visits that are asked for.
pub answers : ℕ → (Visit → Bool) → List Visit → State → List (Option Answer)
answers id asked [] s = []
answers id asked (v ∷ later) s =
    with_later (asked v) (process_limiter v.world id done (arrive v.request s))
      (answers id asked later)

-- The visits of a client alone.
abbrev pub visits_of : (Visit → Bool) → List Visit → List Visit
visits_of mine [] = []
visits_of mine (v ∷ later) = let rest = visits_of mine later in if mine v then v ∷ rest else rest

visits_of-true :
    (mine : Visit → Bool) (v : Visit) (later : List Visit)
    → mine v ≡ true
    → visits_of mine (v ∷ later) ≡ v ∷ visits_of mine later
visits_of-true mine v later own = rw own refl

visits_of-false :
    (mine : Visit → Bool) (v : Visit) (later : List Visit)
    → mine v ≡ false
    → visits_of mine (v ∷ later) ≡ visits_of mine later
visits_of-false mine v later other = rw other refl

abbrev pub key_func_of : Limiter → KeyFunc
key_func_of (fixed_window setting key_func clients) = key_func
key_func_of (token_bucket setting key_func buckets) = key_func

-- A limiter that keeps a word for each key, and answers by the word of the key alone.
pub record IsKeyed (id : ℕ) (key_func : KeyFunc) (wrap : List (Bytes × ℕ) → Limiter)
    (find : World → Bytes → List (Bytes × ℕ) → ℕ) (reply : World → ℕ → Answer × ℕ) : Type 0 where
  pub found :
      (w : World) (key : Bytes) (cells cells' : List (Bytes × ℕ))
      → lookup key cells ≡ lookup key cells'
      → find w key cells ≡ find w key cells'
  pub keyed :
      (w : World) (request : Request) (key : Bytes) (cells : List (Bytes × ℕ)) (s : State)
      → lookup id s.limiters ≡ some (wrap cells)
      → make_key key_func w.client_ip request ≡ returns key
      → process_limiter w id done (arrive request s)
        ≡ finished (reply w (find w key cells)).0.0 (
            set_response (reply w (find w key cells)).0.1 (
              set_limiter id
                (wrap (insert key (reply w (find w key cells)).1 cells))
                (arrive request s)))
  pub unkeyed :
      (w : World) (request : Request) (x : Exception) (cells : List (Bytes × ℕ)) (s : State)
      → lookup id s.limiters ≡ some (wrap cells)
      → make_key key_func w.client_ip request ≡ throws x
      → process_limiter w id done (arrive request s) ≡ finished (throws x) (arrive request s)

module _ (id : ℕ) (key_func : KeyFunc) (wrap : List (Bytes × ℕ) → Limiter)
    (find : World → Bytes → List (Bytes × ℕ) → ℕ) (reply : World → ℕ → Answer × ℕ)
    (h : IsKeyed id key_func wrap find reply) (k : Bytes) where
  abbrev mine : Visit → Bool
  mine = is_client key_func k

  -- Another's visit.
  skip :
      (v : Visit) (later : List Visit) (cells : List (Bytes × ℕ)) (s : State)
      → lookup id s.limiters ≡ some (wrap cells)
      → mine v ≡ false
      → (s' : State) × (cells' : List (Bytes × ℕ)) × (lookup id s'.limiters ≡ some (wrap cells'))
        × (lookup k cells' ≡ lookup k cells)
        × (answers id mine (v ∷ later) s ≡ answers id mine later s')
  unfolding answers set_response set_limiter
  skip v later cells s at other =
      elim (Result-cases (make_key key_func v.world.client_ip v.request)) [
        | inr (x, thrown) ↦ (
          arrive v.request s,
          cells,
          at,
          refl,
          rw (h.unkeyed v.world v.request x cells s at thrown) (rw other refl),
        )
        | inl (key, made) ↦
            let word = reply v.world (find v.world key cells) in
            let ne : bytes_keys.beq key k ≡ false = rw made at other in
            (
              set_response word.0.1
                  (set_limiter id (wrap (insert key word.1 cells)) (arrive v.request s)),
              insert key word.1 cells,
              lookup-insert_self id (wrap (insert key word.1 cells)) s.limiters,
              lookup-insert_ne key k word.1 cells ne,
              rw (h.keyed v.world v.request key cells s at made, other) refl,
            )
      ]

  -- The client's own visit, in two states that have the same word for it.
  meet :
      (v : Visit) (later : List Visit) (cells : List (Bytes × ℕ)) (s : State)
      → lookup id s.limiters ≡ some (wrap cells)
      → mine v ≡ true
      → (s' : State) × (cells' : List (Bytes × ℕ)) × (lookup id s'.limiters ≡ some (wrap cells'))
        × (lookup k cells' ≡ some (reply v.world (find v.world k cells)).1)
        × (answers id mine (v ∷ later) s
            ≡ some (reply v.world (find v.world k cells)).0 ∷ answers id mine later s')
  unfolding answers set_response set_limiter
  meet v later cells s at own =
      elim (Result-cases (make_key key_func v.world.client_ip v.request)) [
        | inr (x, thrown) ↦ let none_own : false ≡ true = rw thrown at own in absurd (cc none_own)
        | inl (key, made) ↦
            let same : key ≡ k = (bytes_keys.beq_iff key k).0 (rw made at own) in
            let made' : make_key key_func v.world.client_ip v.request ≡ returns k =
              made ∙ ap returns same in
            let word = reply v.world (find v.world k cells) in
            (
              set_response word.0.1
                  (set_limiter id (wrap (insert k word.1 cells)) (arrive v.request s)),
              insert k word.1 cells,
              lookup-insert_self id (wrap (insert k word.1 cells)) s.limiters,
              lookup-insert_self k word.1 cells,
              rw (h.keyed v.world v.request k cells s at made', own) refl,
            )
      ]

  pub answers-mine :
      (visits : List Visit) (cells cells' : List (Bytes × ℕ)) (s s' : State)
      → lookup id s.limiters ≡ some (wrap cells)
      → lookup id s'.limiters ≡ some (wrap cells')
      → lookup k cells ≡ lookup k cells'
      → answers id mine visits s ≡ answers id mine (visits_of mine visits) s'
  unfolding answers
  answers-mine [] cells cells' s s' at at' same = refl
  answers-mine (v ∷ later) cells cells' s s' at at' same = elim (Bool-cases (mine v)) [
    | inl own ↦
        let (s1, c1, at1, word1, e1) = meet v later cells s at own in
        let (s2, c2, at2, word2, e2) = meet v (visits_of mine later) cells' s' at' own in
        let words : lookup k c1 ≡ lookup k c2 =
          word1
          ∙ ap (λ c. some (reply v.world c).1) (h.found v.world k cells cells' same)
          ∙ sym word2 in
        e1
        ∙ ap₂ ◌∷◌ (ap (λ c. some (reply v.world c).0) (h.found v.world k cells cells' same))
            (answers-mine later c1 c2 s1 s2 at1 at2 words)
        ∙ sym e2
        ∙ ap (λ vs. answers id mine vs s') (sym (visits_of-true mine v later own))
    | inr other ↦
        let (s1, c1, at1, word1, e1) = skip v later cells s at other in
        e1
        ∙ answers-mine later c1 cells' s1 s' at1 at' (word1 ∙ same)
        ∙ ap (λ vs. answers id mine vs s') (sym (visits_of-false mine v later other))
  ]
