-- ===== src/Recorder/Turns.antt =====
-- The relaying and the writing thread, which share the one record of a round.
use Prim.Native.String.{String}
use ntrt.Prelude.{
  ℕ, suc, ◌+◌, ◌≤◌, ◌≡◌, ap, arith, ◌<◌, ◌∙◌, Bool, true, false, Option, some, List, [], ◌∷◌, ◌++◌,
  length, Bool-cases, inl, inr, if◌then◌else◌,
}
use ntrt.Record.{Record}
use ntrt.Dmap
use ntrt.Listener.{Listener, max_mapped_vars}
use ntrt.Recorder.{MxRecord, clean_mxrecord, MappedVar, Answers, relay}
use ntrt.Recorder.Output.{
  Cell, newline, print_items, features_row, Files, update, update_features_file, aggregation_saver,
  write_mxrecord, Shared, recycle_size, recycle_mxrecord, Turn, relays, writes, take_turns,
}
use ntrt.Recorder.Row.{take, line, print_line}
use ntrt.Recorder.Relay.{Reads, Relayed, relay_lem}

-- The file of a listener's output with its line, which joins it, or replaces it in the first round.
abbrev pub deliver_row : Files → Answers → Listener → List ℕ → Files
deliver_row files a l vs =
    let row = line (
      take l.feature_num a.features.items ++ take l.groupcounter_num a.groupcounters.items ++ vs) in
    update files l.output (if l.append_output then files l.output ++ row else row)

-- What a round is to do for a listener: its line goes to its output, and its sums of all records
-- replace the file of the aggregations, if they are saved.
abbrev pub deliver : Files → Answers × Listener × List ℕ → Files
deliver files (a, l, vs) =
    if l.save_aggregation
    then update (deliver_row files a l vs) l.aggregation_path
        (line (take l.feature_num a.aggregations.items))
    else deliver_row files a l vs

abbrev pub deliver_all : Files → List (Answers × Listener × List ℕ) → Files
deliver_all files [] = files
deliver_all files (x ∷ xs) = deliver_all (deliver files x) xs

module _ (opens : String → Bool) (vars : List (Option (Dmap.Row MappedVar))) where
  -- A listener that can be relayed and written, with the values of its mapped variables.
  pub record IsReady (a : Answers) (l : Listener) (vs : List ℕ) : Type 0 where
    pub features : l.feature_num ≤ length a.features.items
    pub aggregations : l.feature_num ≤ length a.aggregations.items
    pub groupcounters : l.groupcounter_num ≤ length a.groupcounters.items
    pub mapped : l.mapped_vars_num ≡ length vs
    pub few : l.mapped_vars_num ≤ max_mapped_vars
    pub reads : Reads vars l.mapped_var_ids 0 vs
    pub output : opens l.output ≡ true
    pub path : opens l.aggregation_path ≡ true

  unfoldable pub AllReady : List (Answers × Listener × List ℕ) → Type 0
  AllReady [] = Unit
  AllReady ((a, l, vs) ∷ xs) = IsReady a l vs × AllReady xs

  -- The writing thread takes each record before the next listener is relayed.
  abbrev pub prompt : List (Answers × Listener × List ℕ) → List Turn
  prompt [] = []
  prompt (_ ∷ xs) = relays ∷ writes ∷ prompt xs

  abbrev pub listeners : List (Answers × Listener × List ℕ) → List (Answers × Listener)
  listeners [] = []
  listeners ((a, l, vs) ∷ xs) = (a, l) ∷ listeners xs

  pub update_runs :
      (files : Files) (m : MxRecord) (out : String) (app : Bool) (cells : List Cell)
      → m.features_output ≡ out
      → m.append_output ≡ app
      → opens out ≡ true
      → features_row m ≡ some cells
      → update_features_file opens files m
        ≡ some (update files out (if app then files out ++ cells else cells))
  unfolding update_features_file
  update_runs files m out app cells e f o g = cc

  saver_runs :
      (files : Files) (m : MxRecord) (path : String) (n : ℕ) (sums : Record) (cells : List Cell)
      → m.aggregation_path ≡ path
      → m.features_num ≡ n
      → m.aggregations ≡ sums
      → opens path ≡ true
      → print_items n newline sums.items ≡ some cells
      → aggregation_saver opens files m ≡ some (update files path cells)
  unfolding aggregation_saver
  saver_runs files m path n sums cells e f g o c = cc

  write_filled :
      (files : Files) (a : Answers) (l : Listener) (vs : List ℕ) (r : Relayed vars a l vs)
      → IsReady a l vs
      → write_mxrecord opens files r.filled ≡ some (deliver files (a, l, vs))
  unfolding write_mxrecord
  write_filled files a l vs r h =
      let row =
        update_runs files r.filled l.output l.append_output
          (line (
            take l.feature_num a.features.items
            ++ take l.groupcounter_num a.groupcounters.items
            ++ vs))
          r.output r.append h.output r.row in
      elim (Bool-cases l.save_aggregation) [
        | inl e ↦
            let save =
              saver_runs (deliver_row files a l vs) r.filled l.aggregation_path l.feature_num
                a.aggregations (line (take l.feature_num a.aggregations.items)) (r.path e)
                r.features_num r.aggregations h.path
                (print_line l.feature_num a.aggregations.items h.aggregations) in
            cc (row, save, e, r.saved)
        | inr e ↦ cc (row, e, r.saved)
      ]

  -- The threads with a record that was not freed.
  abbrev pub sharing : MxRecord → ℕ → ℕ → Files → Shared
  sharing m queued recycled files = record {
    mxrecord = m;
    queued = queued;
    recycled = recycled;
    freed = false;
    files = files;
  }

  pub relays_step :
      (turns : List Turn) (ls : List (Answers × Listener)) (files : Files) (n r : ℕ) (a : Answers)
      (l l' : Listener) (m m' : MxRecord)
      → relay vars a l m ≡ some (m', l')
      → take_turns opens vars (relays ∷ turns) ((a, l) ∷ ls) (sharing m n r files)
        ≡ take_turns opens vars turns ls (sharing m' (n + 1) r files)
  unfolding take_turns
  relays_step turns ls files n r a l l' m m' e = cc

  recycles :
      (m : MxRecord) (n r : ℕ) (files : Files)
      → r < recycle_size
      → recycle_mxrecord (sharing m n r files) ≡ sharing clean_mxrecord n (r + 1) files
  unfolding recycle_mxrecord
  recycles m n r files h = ground arith

  pub writes_step :
      (turns : List Turn) (ls : List (Answers × Listener)) (files files' : Files) (n r : ℕ)
      (m : MxRecord)
      → r < recycle_size
      → write_mxrecord opens files m ≡ some files'
      → take_turns opens vars (writes ∷ turns) ls (sharing m (suc n) r files)
        ≡ take_turns opens vars turns ls (sharing clean_mxrecord n (r + 1) files')
  unfolding take_turns
  writes_step turns ls files files' n r m h e = cc (recycles m n r files' h)

  add_shift : (r n : ℕ) → r + 1 + n ≡ r + suc n
  add_shift r n = omega arith

  -- Where the writing thread takes each record at once, the recycle puffer has room for a record of
  -- each listener, and for every listener both of its paths open, the arrays of the answers are as
  -- long as its numbers, it has at most 64 mapped variables, and their values can be read: a round
  -- over the listeners has no fault, puts the line of each listener into its own output, in order,
  -- and its sums of all records into its own file where they are saved, and recycles the record once
  -- for each listener.
  pub prompt_lem :
      (xs : List (Answers × Listener × List ℕ)) (files : Files) (r : ℕ)
      → AllReady xs
      → r + length xs ≤ recycle_size
      → take_turns opens vars (prompt xs) (listeners xs) (sharing clean_mxrecord 0 r files)
        ≡ some (sharing clean_mxrecord 0 (r + length xs) (deliver_all files xs))
  unfolding take_turns AllReady
  prompt_lem [] files r h room =
      ap (λ k. some (sharing clean_mxrecord 0 k files)) (let e : r ≡ r + 0 = omega arith in e)
  prompt_lem ((a, l, vs) ∷ xs) files r (h, k) room =
      let x = relay_lem vars a l vs h.features h.groupcounters h.mapped h.few h.reads in
      let files' = deliver files (a, l, vs) in
      relays_step (writes ∷ prompt xs) (listeners xs) files 0 r a l
        (record l { append_output = true }) clean_mxrecord x.filled x.runs
      ∙ writes_step (prompt xs) (listeners xs) files files' 0 r x.filled (omega arith)
          (write_filled files a l vs x h)
      ∙ prompt_lem xs (deliver files (a, l, vs)) (r + 1) k (omega arith)
      ∙ ap (λ n. some (sharing clean_mxrecord 0 n (deliver_all files' xs)))
          (add_shift r (length xs))
