-- ===== src/Helper/Chunks.antt =====
-- The helper reads the same messages however its socket cuts the bridge's answer into chunks.
use mathlib.Core.List.{append-nil, append_assoc}
use re_remote_dev.Helper.{
  Got, Message, Progress, Reading, at_start, chunk, complete, drain, end_of, fetch, going, message,
  over, partition_line, receive, refused, then_read, unreadable, waiting,
}
use re_remote_dev.Json.{Json}
use re_remote_dev.Prelude.{
  AreFull, Bool-cases, List, Option, [], ap, arith, concat, eqb, if◌then◌else◌, inl, inr, length,
  map, none, refl, some, suc, sym, zero, ℕ, ◌++◌, ◌<◌, ◌∙◌, ◌∷◌, ◌≡◌, ◌≤◌,
}
use mathlib.Core.Option

module _ (parse : List ℕ → Option Json) where
  -- The reference: one byte at a time.
  unfoldable pub scan : Progress → List ℕ → List ℕ → Reading
  scan p line [] = waiting p line
  scan p line (c ∷ cs) =
      let longer = scan p (line ++ (c ∷ [])) cs in
      let ended = then_read parse (message p (parse line)) (λ q. scan q [] cs) in
      if eqb c 10 then ended else longer

  -- A reading goes on with going text.
  abbrev pub continued : Reading → List ℕ → Reading
  continued (waiting p line) text = scan p line text
  continued (over m) text = over m

  continued-then_read :
      (m : Message) (f g : Progress → Reading) (text : List ℕ)
      → ((p : Progress) → f p ≡ continued (g p) text)
      → then_read parse m f ≡ continued (then_read parse m g) text
  continued-then_read (going p) f g text h = h p
  continued-then_read (complete v p) f g text h = refl
  continued-then_read refused f g text h = refl
  continued-then_read unreadable f g text h = refl

  scan-append :
      (p : Progress) (line xs ys : List ℕ) → scan p line (xs ++ ys) ≡ continued (scan p line xs) ys
  unfolding scan
  scan-append p line [] ys = refl
  scan-append p line (c ∷ xs) ys = elim (Bool-cases (eqb c 10)) [
    | inl e ↦ rw e (
        continued-then_read (message p (parse line)) (λ q. scan q [] (xs ++ ys)) (λ q. scan q [] xs)
          ys (λ q. scan-append q [] xs ys))
    | inr e ↦ rw e (scan-append p (line ++ (c ∷ [])) xs ys)
  ]

  -- What one partition does to the scan.
  abbrev pub by_line : Progress → List ℕ → List ℕ → Option (List ℕ × List ℕ) → Reading
  by_line p line text none = waiting p (line ++ text)
  by_line p line text (some (raw, rest)) =
      then_read parse (message p (parse (line ++ raw))) (λ q. scan q [] rest)

  by_line-step :
      (p : Progress) (line : List ℕ) (c : ℕ) (cs : List ℕ) (o : Option (List ℕ × List ℕ))
      → by_line p (line ++ (c ∷ [])) cs o
        ≡ by_line p line (c ∷ cs) (Option.map (λ (q : List ℕ × List ℕ). (c ∷ q.0, q.1)) o)
  by_line-step p line c cs none = ap (waiting p) (append_assoc line (c ∷ []) cs)
  by_line-step p line c cs (some (raw, rest)) = rw (append_assoc line (c ∷ []) raw) refl

  scan-partition_line :
      (p : Progress) (line text : List ℕ)
      → scan p line text ≡ by_line p line text (partition_line text)
  unfolding scan partition_line
  scan-partition_line p line [] = ap (waiting p) (sym (append-nil line))
  scan-partition_line p line (c ∷ cs) = elim (Bool-cases (eqb c 10)) [
    | inl e ↦ rw (e, append-nil line) refl
    | inr e ↦
        rw e (
          scan-partition_line p (line ++ (c ∷ [])) cs
          ∙ by_line-step p line c cs (partition_line cs))
  ]

  -- A partition leaves less.
  abbrev pub IsShorter : ℕ → Option (List ℕ × List ℕ) → Type 0
  IsShorter n none = Unit
  IsShorter n (some (raw, rest)) = length rest < n

  partition_line-IsShorter : (text : List ℕ) → IsShorter (length text) (partition_line text)
  unfolding partition_line
  partition_line-IsShorter [] = tt
  partition_line-IsShorter (c ∷ cs) = elim (Bool-cases (eqb c 10)) [
    | inl e ↦ rw e (omega arith)
    | inr e ↦ rw e (go (partition_line cs) (partition_line-IsShorter cs))
  ]
    where
      go :
          (o : Option (List ℕ × List ℕ))
          → IsShorter (length cs) o
          → IsShorter (suc (length cs)) (Option.map (λ (q : List ℕ × List ℕ). (c ∷ q.0, q.1)) o)
      go none h = tt
      go (some (raw, rest)) h = omega arith

  then_read-cong :
      (m : Message) (f g : Progress → Reading)
      → ((p : Progress) → f p ≡ g p)
      → then_read parse m f ≡ then_read parse m g
  then_read-cong (going p) f g h = h p
  then_read-cong (complete v p) f g h = refl
  then_read-cong refused f g h = refl
  then_read-cong unreadable f g h = refl

  -- Fuel for each byte of the buffer is enough for the partitions.
  drain-scan :
      (fuel : ℕ) (p : Progress) (buffer : List ℕ)
      → length buffer ≤ fuel
      → drain parse fuel p buffer ≡ scan p [] buffer
  unfolding drain scan
  drain-scan zero p [] h = refl
  drain-scan zero p (c ∷ cs) h = absurd (omega arith)
  drain-scan (suc fuel) p buffer h =
      drained (partition_line buffer) (partition_line-IsShorter buffer) (drain-scan fuel)
      ∙ sym (scan-partition_line p [] buffer)
    where
      drained :
          (o : Option (List ℕ × List ℕ))
          → IsShorter (length buffer) o
          → ((q : Progress) (rest : List ℕ)
              → length rest ≤ fuel
              → drain parse fuel q rest ≡ scan q [] rest)
          → elim o [
            | none ↦ waiting p buffer
            | some (raw, rest) ↦
                then_read parse (message p (parse raw)) (λ q. drain parse fuel q rest)
          ]
            ≡ by_line p [] buffer o
      drained none s ih = refl
      drained (some (raw, rest)) s ih =
          then_read-cong (message p (parse raw)) (λ q. drain parse fuel q rest)
            (λ q. scan q [] rest) (λ q. ih q rest (omega arith))

  -- The buffer of a reading that waits holds no whole line.
  abbrev IsSettled : Reading → Type 0
  IsSettled (waiting p line) = scan p [] line ≡ waiting p line
  IsSettled (over m) = Unit

  then_read-IsSettled :
      (m : Message) (f : Progress → Reading)
      → ((p : Progress) → IsSettled (f p))
      → IsSettled (then_read parse m f)
  then_read-IsSettled (going p) f h = h p
  then_read-IsSettled (complete v p) f h = tt
  then_read-IsSettled refused f h = tt
  then_read-IsSettled unreadable f h = tt

  scan-IsSettled :
      (p : Progress) (line text : List ℕ)
      → scan p [] line ≡ waiting p line
      → IsSettled (scan p line text)
  unfolding scan
  scan-IsSettled p line [] h = h
  scan-IsSettled p line (c ∷ cs) h = elim (Bool-cases (eqb c 10)) [
    | inl e ↦ rw e (
        then_read-IsSettled (message p (parse line)) (λ q. scan q [] cs)
          (λ q. scan-IsSettled q [] cs refl))
    | inr e ↦ rw e (
        scan-IsSettled p (line ++ (c ∷ [])) cs (
          scan-append p [] line (c ∷ [])
          ∙ ap (λ (r : Reading). continued r (c ∷ [])) h
          ∙ rw e refl))
  ]

  -- What a reading comes to at the end of the stream.
  abbrev pub at_end : Reading → Message
  at_end (waiting p line) = going p
  at_end (over m) = m

  receive-over : (m : Message) (stream : List Got) → receive parse (over m) stream ≡ m
  unfolding receive
  receive-over m [] = refl
  receive-over m (g ∷ stream) = refl

  continued-over :
      (r : Reading) (xs ys : List ℕ) → continued r (xs ++ ys) ≡ continued (continued r xs) ys
  continued-over (waiting p line) xs ys = scan-append p line xs ys
  continued-over (over m) xs ys = refl

  receive-scan :
      (r : Reading) (chunks : List (List ℕ))
      → AreFull chunks
      → IsSettled r
      → receive parse r (map chunk chunks) ≡ at_end (continued r (concat chunks))
  unfolding receive concat scan
  receive-scan (over m) [] full h = refl
  receive-scan (over m) (c ∷ chunks) full h = refl
  receive-scan (waiting p buffer) [] full h = refl
  receive-scan (waiting p buffer) ([] ∷ chunks) full h = elim full [ ]
  receive-scan (waiting p buffer) ((c ∷ cs) ∷ chunks) full h =
      ap (λ (r : Reading). receive parse r (map chunk chunks)) drained
      ∙ receive-scan (scan p buffer (c ∷ cs)) chunks full (scan-IsSettled p buffer (c ∷ cs) h)
      ∙ ap at_end (sym (scan-append p buffer (c ∷ cs) (concat chunks)))
    where
      drained :
          drain parse (length (buffer ++ (c ∷ cs))) p (buffer ++ (c ∷ cs)) ≡ scan p buffer (c ∷ cs)
      drained =
          drain-scan (length (buffer ++ (c ∷ cs))) p (buffer ++ (c ∷ cs)) (omega arith)
          ∙ scan-append p [] buffer (c ∷ cs)
          ∙ ap (λ (r : Reading). continued r (c ∷ cs)) h

  -- The end of the program depends on what the bridge sent before it closed, not on the chunks it came in:
  -- it is the end of a reading that takes one byte at a time.
  pub fetch-scan :
      (chunks : List (List ℕ))
      → AreFull chunks
      → fetch parse (some (map chunk chunks)) ≡ end_of (at_end (scan at_start [] (concat chunks)))
  unfolding fetch scan
  fetch-scan chunks full = ap end_of (receive-scan (waiting at_start []) chunks full refl)
