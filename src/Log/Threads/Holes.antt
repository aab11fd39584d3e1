-- ===== src/Log/Threads/Holes.antt =====
-- src/logger.cpp: a ring in which a push has taken its place and not yet stored its entry.
use cgi_web_server.Base.{
  ℕ, zero, suc, ◌+◌, ◌%◌, ◌^◌, ◌<◌, ◌≡◌, refl, sym, ap, ◌∙◌, arith, true, false, Option, none, some,
  List, [], ◌∷◌, ◌++◌, leb, length, get_elem?, length-append, length-map, get_or, set, length-set,
  map, append_assoc, append-nil, get_or-set_self, get_or-set_ne, dec_lt,
}
use cgi_web_server.Log.Delivery.{flush_if_lem, batch-flush_if}
use cgi_web_server.Log.Queue.{View}
use cgi_web_server.Log.Threads.{claim, store}
use cgi_web_server.Log.{
  Ring, Worker, log_buffer_size, push, read_tail, take_at, pop, flush_if, drain, stop_and_flush,
}

module _ {A : Type 0} where
  -- The places between tail and head, an empty one being `none`; the ring is not overrun.
  pub record Places (l : Ring A) (places : List (Option A)) : Type 0 where
    pub size : length l.log_buffer ≡ log_buffer_size
    pub count : l.head ≡ l.tail + length places
    pub fits : l.head < 2 ^ 64
    pub room : length places < log_buffer_size
    pub holds :
        (i : ℕ)
        → i < length places
        → get_or l.log_buffer ((l.tail + i) % log_buffer_size) none ≡ get_or places i none

  get_or-map : (q : List A) (i : ℕ) → get_or (map some q) i none ≡ get_elem? q i
  get_or-map [] i = refl
  get_or-map (x ∷ q) zero = refl
  get_or-map (x ∷ q) (suc i) = get_or-map q i

  get_or-append_lt :
      (xs ys : List (Option A)) (i : ℕ)
      → i < length xs
      → get_or (xs ++ ys) i none ≡ get_or xs i none
  get_or-append_lt [] ys i h = absurd (omega arith)
  get_or-append_lt (x ∷ xs) ys zero h = refl
  get_or-append_lt (x ∷ xs) ys (suc i) h = get_or-append_lt xs ys i (omega arith)

  get_or-append : (xs : List (Option A)) (y : Option A) → get_or (xs ++ y ∷ []) (length xs) none ≡ y
  get_or-append [] y = refl
  get_or-append (x ∷ xs) y = get_or-append xs y

  pub Places-of_View :
      (l : Ring A) (q : List A) → View l q → length q < log_buffer_size → Places l (map some q)
  Places-of_View l q v h =
      let same = length-map some q in
      record {
        size = v.places;
        count = omega (arith, v.count, same);
        fits = v.fits;
        room = omega (arith, same);
        holds = λ i below. v.holds i (omega (arith, same)) (omega arith) ∙ sym (get_or-map q i);
      }

  -- A ring whose next place holds `y` is longer by that place when its head moves.
  pub claim-Places :
      (l : Ring A) (places : List (Option A)) (y : Option A)
      → Places l places
      → length places + 1 < log_buffer_size
      → l.head + 1 < 2 ^ 64
      → get_or l.log_buffer (l.head % log_buffer_size) none ≡ y
      → Places (claim l) (places ++ y ∷ [])
  unfolding claim
  claim-Places l places y v more room next =
      let longer = length-append places (y ∷ []) in
      record {
        size = v.size;
        count = omega (arith, v.count, longer);
        fits = omega arith;
        room = omega (arith, longer);
        holds = λ i below. elim (dec_lt i (length places)) [
          | yes old ↦ v.holds i old ∙ sym (get_or-append_lt places (y ∷ []) i old)
          | no last ↦
              let at : i ≡ length places = omega (arith, longer) in
              ap (λ j. get_or l.log_buffer (j % log_buffer_size) none) {x = l.tail + i} {y = l.head}
                (omega (arith, v.count))
              ∙ next
              ∙ rw at (sym (get_or-append places y))
        ];
      }

  -- The store at the place of the head changes no place before it.
  store-Places :
      (e : A) (l : Ring A) (places : List (Option A))
      → Places l places
      → Places (store l.head e l) places
  unfolding store
  store-Places e l places v = record {
    size = length-set l.log_buffer (l.head % log_buffer_size) (some e) ∙ v.size;
    count = v.count;
    fits = v.fits;
    room = v.room;
    holds = λ i below.
        get_or-set_ne l.log_buffer (some e) none (omega (arith, v.count, v.room)) ∙ v.holds i below;
  }

  push-Places :
      (e : A) (l : Ring A) (places : List (Option A))
      → Places l places
      → length places + 1 < log_buffer_size
      → l.head + 1 < 2 ^ 64
      → Places (push e l) (places ++ some e ∷ [])
  unfolding push claim store
  push-Places e l places v more room =
      claim-Places (store l.head e l) places (some e) (store-Places e l places v) more room (
        get_or-set_self l.log_buffer (l.head % log_buffer_size) (some e) none
          (omega (arith, v.size)))

  read_tail-Places :
      (l : Ring A) (places : List (Option A)) → Places l places → read_tail l ≡ l.tail
  unfolding read_tail
  read_tail-Places l places v = let e = v.count in let f = v.fits in let r = v.room in ground arith

  -- A ring gives what its oldest place holds, and its tail moves past an empty place as past an
  -- entry.
  pub pop-Places :
      (l : Ring A) (y : Option A) (places : List (Option A))
      → Places l (y ∷ places)
      → ((pop l).0 ≡ y) × Places (pop l).1 places
  unfolding pop
  pop-Places l y places v =
      let e = v.count in
      let f = v.fits in
      let r = v.room in
      let some_left : leb l.head l.tail ≡ false = ground arith in
      let oldest : get_or l.log_buffer (l.tail % log_buffer_size) none ≡ y =
        ap (λ j. get_or l.log_buffer (j % log_buffer_size) none) {x = l.tail} {y = l.tail + 0}
          (omega arith)
        ∙ v.holds 0 (omega arith) in
      rw (read_tail-Places l (y ∷ places) v, some_left, take_at)
        (
          oldest,
          record {
            size = length-set l.log_buffer (l.tail % log_buffer_size) none ∙ v.size;
            count = omega arith;
            fits = v.fits;
            room = omega arith;
            holds = λ i below.
                ap
                  (λ j.
                    get_or (set l.log_buffer (l.tail % log_buffer_size) none) (j % log_buffer_size)
                      none)
                  {x = (l.tail + 1) % 2 ^ 64 + i} {y = l.tail + suc i} (omega arith)
                ∙ get_or-set_ne l.log_buffer none none (omega arith)
                ∙ v.holds (suc i) (omega arith);
          },
        )

  pub pop-Places_nil : (l : Ring A) → Places l [] → ((pop l).0 ≡ none) × Places (pop l).1 []
  unfolding pop
  pop-Places_nil l v =
      let e = v.count in
      let done : leb l.head l.tail ≡ true = ground arith in
      rw (read_tail-Places l [] v, done, take_at) (refl, v)

  drain-Places :
      (fuel : ℕ) (w : Worker A) (q : List A) (rest : List (Option A))
      → Places w.ring (map some q ++ (none ∷ rest))
      → length q < fuel
      → (drain fuel w).written ≡ w.written ++ q
  unfolding drain
  drain-Places zero w q rest v fuel = absurd (omega arith)
  drain-Places (suc f) w [] rest v fuel =
      let (empty, next) = pop-Places w.ring none rest v in
      rw (empty, drain) (sym (append-nil w.written))
  drain-Places (suc f) w (x ∷ q) rest v fuel =
      let (oldest, next) = pop-Places w.ring (some x) (map some q ++ (none ∷ rest)) v in
      let w' : Worker A = record {
        ring = (pop w.ring).1;
        batch = w.batch;
        written = w.written ++ x ∷ [];
      } in
      let kept = drain-Places f w' q rest next (omega arith) in
      rw (oldest, drain) (kept ∙ append_assoc w.written (x ∷ []) q)

  -- The pushes of other threads, each from its first step to its last.
  abbrev pub push_all : List A → Ring A → Ring A
  push_all [] l = l
  push_all (e ∷ later) l = push_all later (push e l)

  head-push : (e : A) (l : Ring A) → (push e l).head ≡ (l.head + 1) % 2 ^ 64
  unfolding push
  head-push e l = refl

  push_all-Places :
      (later : List A) (l : Ring A) (places : List (Option A))
      → Places l places
      → length places + length later < log_buffer_size
      → l.head + length later < 2 ^ 64
      → Places (push_all later l) (places ++ map some later)
  push_all-Places [] l places v more room = rw (append-nil places) v
  push_all-Places (e ∷ later) l places v more room =
      let longer = length-append places (some e ∷ []) in
      let next = push-Places e l places v (omega arith) (omega arith) in
      rw (append_assoc places (some e ∷ []) (map some later)) at (
        push_all-Places later (push e l) (places ++ some e ∷ []) next (omega (arith, longer))
          (omega (arith, head-push e l)))

  -- Where a push has taken the next place of a ring that is not overrun, and that place is
  -- empty, but has not stored its entry yet, a logger that stops writes the entries before that
  -- place, in order, and none of those that other threads have pushed behind it.
  pub stop_and_flush-claim :
      (w : Worker A) (q later : List A)
      → View w.ring q
      → get_or w.ring.log_buffer (w.ring.head % log_buffer_size) none ≡ none
      → length q + 1 + length later < log_buffer_size
      → w.ring.head + 1 + length later < 2 ^ 64
      → (stop_and_flush (record w { ring = push_all later (claim w.ring) })).written
        ≡ w.written ++ (w.batch ++ q)
  unfolding stop_and_flush
  stop_and_flush-claim w q later v empty few room =
      let w' : Worker A = record w { ring = push_all later (claim w.ring) } in
      let same = length-map some q in
      let held = Places-of_View w.ring q v (omega arith) in
      let hole = claim-Places w.ring (map some q) none held (omega arith) (omega arith) empty in
      let longer = length-append (map some q) (none ∷ []) in
      let behind =
        push_all-Places later (claim w.ring) (map some q ++ none ∷ []) hole (omega (arith, longer))
          (unfold claim in omega arith) in
      let (flushed, ring) = flush_if_lem true w' q in
      let places = rw (append_assoc (map some q) (none ∷ []) (map some later)) at behind in
      drain-Places log_buffer_size (flush_if true w') q (map some later) (rw ring places)
        (omega arith)
      ∙ rw (batch-flush_if w') at flushed
