-- ===== src/Log/Queue.antt =====
-- src/logger.cpp: the ring refines a queue that forgets its oldest entries when it is overrun.
use cgi_web_server.Base.{
  ℕ, zero, suc, ◌+◌, ◌-◌, ◌%◌, ◌^◌, ◌<◌, ◌≤◌, ◌≡◌, ◌≢◌, refl, sym, ap, ap₂, ◌∙◌, arith, true, false,
  Option, none, some, List, [], ◌∷◌, ◌++◌, leb, if◌then◌else◌, length, get_elem?, length-append,
  get_or, set, drop, length-drop, length-set, Bool-cases, inl, inr, leb→le, get_or-set_self,
  get_or-set_ne, dec_lt,
}
use cgi_web_server.Log.{Ring, log_buffer_size, empty_ring, push, read_tail, take_at, pop}

-- Two places of the ring differ if fewer than 1024 entries lie between them.
place-ne :
    (tail head n i : ℕ)
    → head ≡ tail + n
    → i < n
    → n < i + 1024
    → head % log_buffer_size ≢ (tail + i) % log_buffer_size
place-ne tail head n i e h k = omega arith

module _ {A : Type 0} where
  get_elem?-append : (xs : List A) (x : A) → get_elem? (xs ++ x ∷ []) (length xs) ≡ some x
  get_elem?-append [] x = refl
  get_elem?-append (y ∷ xs) x = get_elem?-append xs x

  get_elem?-append_lt :
      (xs ys : List A) (i : ℕ) → i < length xs → get_elem? (xs ++ ys) i ≡ get_elem? xs i
  get_elem?-append_lt [] ys i h = absurd (omega arith)
  get_elem?-append_lt (x ∷ xs) ys zero h = refl
  get_elem?-append_lt (x ∷ xs) ys (suc i) h = get_elem?-append_lt xs ys i (omega arith)

  get_elem?-drop : (n : ℕ) (xs : List A) (i : ℕ) → get_elem? (drop n xs) i ≡ get_elem? xs (n + i)
  get_elem?-drop zero xs i = ap (get_elem? xs) (omega arith)
  get_elem?-drop (suc n) [] i = refl
  get_elem?-drop (suc n) (x ∷ xs) i =
      get_elem?-drop n xs i ∙ ap (get_elem? (x ∷ xs)) {x = suc (n + i)} (omega arith)

  -- The queue of the entries pushed and not popped.
  abbrev pub keep : List A → List A
  keep q = if leb log_buffer_size (length q) then drop (length q + 1 - log_buffer_size) q else q

  abbrev pub queue_pop : List A → Option A × List A
  queue_pop [] = (none, [])
  queue_pop (x ∷ q) = (some x, q)

  -- The ring holds the newest entries of the queue, each in its place.
  pub record View (l : Ring A) (q : List A) : Type 0 where
    pub places : length l.log_buffer ≡ log_buffer_size
    pub count : l.head ≡ l.tail + length q
    pub fits : l.head < 2 ^ 64
    pub holds :
        (i : ℕ)
        → i < length q
        → length q ≤ i + log_buffer_size
        → get_or l.log_buffer ((l.tail + i) % log_buffer_size) none ≡ get_elem? q i

  pub push-View :
      (e : A) (l : Ring A) (q : List A)
      → View l q
      → l.head + 1 < 2 ^ 64
      → View (push e l) (q ++ e ∷ [])
  unfolding push
  push-View e l q v room = record {
    places = length-set l.log_buffer (l.head % log_buffer_size) (some e) ∙ v.places;
    count = omega (arith, v.count, length-append q (e ∷ []));
    fits = omega arith;
    holds = λ i h k. elim (dec_lt i (length q)) [
      | yes old ↦
          get_or-set_ne l.log_buffer (some e) none (
            place-ne l.tail l.head (length q) i v.count old
              (omega (arith, length-append q (e ∷ []))))
          ∙ v.holds i old (omega (arith, length-append q (e ∷ [])))
          ∙ sym (get_elem?-append_lt q (e ∷ []) i old)
      | no last ↦
          let at : i ≡ length q = omega (arith, length-append q (e ∷ [])) in
          ap
            (λ j.
              get_or (set l.log_buffer (l.head % log_buffer_size) (some e)) (j % log_buffer_size)
                none)
            {x = l.tail + i} {y = l.head} (omega (arith, v.count))
          ∙ get_or-set_self l.log_buffer (l.head % log_buffer_size) (some e) none
              (omega (arith, v.places))
          ∙ rw at (sym (get_elem?-append q e))
    ];
  }

  -- Dropping the oldest entries is moving the tail.
  drop-View :
      (n : ℕ) (l : Ring A) (q : List A)
      → n ≤ length q
      → View l q
      → View (record l { tail = l.tail + n }) (drop n q)
  drop-View n l q h v = record {
    places = v.places;
    count = omega (arith, v.count, length-drop n q);
    fits = v.fits;
    holds = λ i p k.
        ap (λ j. get_or l.log_buffer (j % log_buffer_size) none) {x = l.tail + n + i} (omega arith)
        ∙ v.holds (n + i) (omega (arith, length-drop n q)) (omega (arith, length-drop n q))
        ∙ sym (get_elem?-drop n q i);
  }

  -- A ring that is not overrun gives its oldest entry.
  take_at-View :
      (l : Ring A) (q : List A)
      → length q < log_buffer_size
      → View l q
      → ((take_at l).0 ≡ (queue_pop q).0) × View (take_at l).1 (queue_pop q).1
  unfolding take_at
  take_at-View l [] h v =
      let e = v.count in
      let done : leb l.head l.tail ≡ true = ground arith in rw (done, take_at) (refl, v)
  take_at-View l (x ∷ q) h v =
      let e = v.count in
      let f = v.fits in
      let some_left : leb l.head l.tail ≡ false = ground arith in
      let oldest : get_or l.log_buffer (l.tail % log_buffer_size) none ≡ some x =
        ap (λ j. get_or l.log_buffer (j % log_buffer_size) none) {x = l.tail} {y = l.tail + 0}
          (omega arith)
        ∙ v.holds 0 (omega arith) (omega arith) in
      rw (some_left, take_at)
        (
          oldest,
          record {
            places = length-set l.log_buffer (l.tail % log_buffer_size) none ∙ v.places;
            count = omega arith;
            fits = v.fits;
            holds = λ i p k.
                ap
                  (λ j.
                    get_or (set l.log_buffer (l.tail % log_buffer_size) none) (j % log_buffer_size)
                      none)
                  {x = (l.tail + 1) % 2 ^ 64 + i} {y = l.tail + suc i} (omega arith)
                ∙ get_or-set_ne l.log_buffer none none (omega arith)
                ∙ v.holds (suc i) (omega arith) (omega arith);
          },
        )

  read_tail_lem :
      (l : Ring A) (q : List A) → View l q → read_tail l ≡ l.tail + (length q + 1 - log_buffer_size)
  unfolding read_tail
  read_tail_lem l q v = let e = v.count in let f = v.fits in ground arith

  length-keep : (q : List A) → length (keep q) < log_buffer_size
  length-keep q = elim (Bool-cases (leb log_buffer_size (length q))) [
    | inl over ↦
        rw over (omega (arith, length-drop (length q + 1 - log_buffer_size) q, leb→le _ _ over))
    | inr under ↦ rw under (ground arith)
  ]

  keep-drop : (q : List A) → keep q ≡ drop (length q + 1 - log_buffer_size) q
  keep-drop q = elim (Bool-cases (leb log_buffer_size (length q))) [
    | inl over ↦ rw over refl
    | inr under ↦
        let none_over : length q + 1 - log_buffer_size ≡ 0 = ground arith in
        rw (under, none_over) refl
  ]

  -- `pop` on a ring that holds the newest entries of a queue gives what the queue gives once it
  -- has forgotten all but its newest 1023 entries, if it has 1024 or more, and leaves a ring
  -- that holds the newest entries of the rest.
  pub pop-View :
      (l : Ring A) (q : List A)
      → View l q
      → ((pop l).0 ≡ (queue_pop (keep q)).0) × View (pop l).1 (queue_pop (keep q)).1
  unfolding pop
  pop-View l q v =
      let n = length q + 1 - log_buffer_size in
      let moved : View (record l { tail = read_tail l }) (keep q) =
        rw (read_tail_lem l q v, keep-drop q) (drop-View n l q (omega arith) v) in
      take_at-View (record l { tail = read_tail l }) (keep q) (length-keep q) moved

-- A call of the producer or of the worker.
pub data Op (A : Type 0) : Type 0 where
  put : A → Op A
  get : Op A

module _ {A : Type 0} where
  -- The results of the worker's calls, by the ring and by the queue.
  pub run : List (Op A) → Ring A → List (Option A)
  run [] l = []
  run (put e ∷ ops) l = run ops (push e l)
  run (get ∷ ops) l = (pop l).0 ∷ run ops (pop l).1

  pub queue_run : List (Op A) → List A → List (Option A)
  queue_run [] q = []
  queue_run (put e ∷ ops) q = queue_run ops (q ++ e ∷ [])
  queue_run (get ∷ ops) q = (queue_pop (keep q)).0 ∷ queue_run ops (queue_pop (keep q)).1

  head-pop : (l : Ring A) → (pop l).1.head ≡ l.head
  unfolding pop take_at
  head-pop l = ground arith

  run-View :
      (ops : List (Op A)) (l : Ring A) (q : List A)
      → View l q
      → l.head + length ops < 2 ^ 64
      → run ops l ≡ queue_run ops q
  unfolding run queue_run
  run-View [] l q v room = refl
  run-View (put e ∷ ops) l q v room =
      run-View ops (push e l) (q ++ e ∷ []) (push-View e l q v (omega arith))
        (unfold push in omega arith)
  run-View (get ∷ ops) l q v room =
      let (same, next) = pop-View l q v in
      ap₂ ◌∷◌ same (run-View ops (pop l).1 (queue_pop (keep q)).1 next (omega (arith, head-pop l)))

  pub empty-View : View {A = A} empty_ring []
  empty-View = record {
    places = refl;
    count = refl;
    fits = omega arith;
    holds = λ i h k. absurd (omega arith);
  }

  -- From the start, no sequence of fewer than 2 ^ 64 calls tells the logger's ring from a queue
  -- that is cut to its newest 1023 entries when the worker finds 1024 or more in it.
  pub run_refines :
      (ops : List (Op A)) → length ops < 2 ^ 64 → run ops empty_ring ≡ queue_run ops []
  run_refines ops h = run-View ops empty_ring [] empty-View (omega arith)
