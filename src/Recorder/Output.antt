-- ===== src/Recorder/Output.antt =====
-- cmp/cmp_recorder.c, the rows that the writing thread prints of a record, the files that it leaves,
-- and the turns of the two threads.
use Prim.Native.String.{String}
use text.Mathlib.Text as Text
use ntrt.Prelude.{
  ℕ, zero, suc, ◌+◌, ◌-◌, ◌^◌, Bool, ◌||◌, Option, none, some, List, [], ◌∷◌, ◌++◌, ltb, true,
  false, ◌==◌, if◌then◌else◌,
}
use ntrt.Prelude.Int.{ℤ, pos, negsuc}
use ntrt.Listener.{Listener}
use ntrt.Dmap
use ntrt.Dmap.{visit_all}
use ntrt.Recorder.{MxRecord, clean_mxrecord, MappedVar, Answers, relay}

-- The character printed behind a number.
pub data Mark : Type 0 where
  comma newline : Mark

-- A number printed by `"%d%c"`.
abbrev pub Cell : Type 0
Cell = ℤ × Mark

-- What `%d` prints of a uint32_t.
unfoldable pub as_int : ℕ → ℤ
as_int n = if ltb n (2 ^ 31) then pos n else negsuc (2 ^ 32 - n - 1)

-- `for(i=0; i<c; ++i) fprintf(fp,"%d%c", items[i], i == (c-1) ? end : ',')`.
unfoldable pub print_items : ℕ → Mark → List ℕ → Option (List Cell)
unfolding as_int
print_items zero end items = some []
print_items (suc n) end [] = none
print_items (suc n) end (x ∷ items) = elim (print_items n end items) [
  | none ↦ none
  | some cells ↦ some ((as_int x, if n == 0 then end else comma) ∷ cells)
]

-- The cells that `_update_features_file` prints.
unfoldable pub features_row : MxRecord → Option (List Cell)
unfolding print_items
features_row m =
    let more : Mark =
      if ltb 0 m.mapped_vars_num || ltb 0 m.groupcounters_num then comma else newline in
    let last : Mark = if ltb 0 m.mapped_vars_num then comma else newline in
    elim (print_items m.features_num more m.features.items) [
      | none ↦ none
      | some fs ↦ elim (print_items m.groupcounters_num last m.groupcounters.items) [
        | none ↦ none
        | some gs ↦ elim (print_items m.mapped_vars_num newline m.mapped_var_values) [
          | none ↦ none
          | some vs ↦ some (fs ++ gs ++ vs)
        ]
      ]
    ]

-- The files, by their paths.
abbrev pub Files : Type 0
Files = String → List Cell

abbrev pub update : Files → String → List Cell → Files
update files path cells p = if Text.◌==◌ p path then cells else files p

-- The two threads: the one record of a round, the number of times that it stands in the puffer
-- between them, the number of records in the puffer for recycling, whether the record was freed, and
-- the files.
pub record Shared : Type 0 where
  pub mxrecord : MxRecord
  pub queued : ℕ
  pub recycled : ℕ
  pub freed : Bool
  pub files : Files

-- `CMP_PUFFER_RECYCLE_SIZE`.
abbrev pub recycle_size : ℕ
recycle_size = 128

-- The receiver of the recycle puffer, of `CMP_DEF_RECPUFFER`: a record that finds no room is freed.
unfoldable pub recycle_mxrecord : Shared → Shared
recycle_mxrecord s =
    if s.recycled == recycle_size
    then record s { freed = true }
    else record s { mxrecord = clean_mxrecord; recycled = s.recycled + 1 }

-- A turn of a thread: the relaying one takes its next listener, or the writing one takes a record
-- from the puffer, writes it, and recycles it.
pub data Turn : Type 0 where
  relays writes : Turn

-- `opens path` is what fopen(3) answers: whether it gives a stream. The code prints to the stream and
-- closes it in any case.
module _ (opens : String → Bool) where
  -- `_update_features_file`.
  unfoldable pub update_features_file : Files → MxRecord → Option Files
  unfolding features_row
  update_features_file files m =
      if opens m.features_output
      then elim (features_row m) [
        | none ↦ none
        | some cells ↦ some (
            update files m.features_output
              (if m.append_output then files m.features_output ++ cells else cells))
      ]
      else none

  -- `_aggregation_saver`.
  unfoldable pub aggregation_saver : Files → MxRecord → Option Files
  unfolding print_items
  aggregation_saver files m =
      if opens m.aggregation_path
      then elim (print_items m.features_num newline m.aggregations.items) [
        | none ↦ none
        | some cells ↦ some (update files m.aggregation_path cells)
      ]
      else none

  -- The body of the loop of `_thr_filewriter_main_proc`, up to the recycling.
  unfoldable pub write_mxrecord : Files → MxRecord → Option Files
  unfolding update_features_file aggregation_saver
  write_mxrecord files m = elim (update_features_file files m) [
    | none ↦ none
    | some files' ↦ if m.save_aggregations then aggregation_saver files' m else some files'
  ]

  -- A round of the relaying thread over the listeners, with the turns in the order given: the record
  -- is queued once for each listener, and recycled once for each time that it is written. To read or
  -- write it after it was freed is a fault. The writing thread waits where nothing is queued. Each
  -- listener is relayed once, so that what a relay leaves of it is for the next round.
  unfoldable pub take_turns :
      List (Option (Dmap.Row MappedVar))
      → List Turn
      → List (Answers × Listener)
      → Shared
      → Option Shared
  unfolding relay write_mxrecord recycle_mxrecord
  take_turns vars [] ls s = some s
  take_turns vars (relays ∷ turns) [] s = take_turns vars turns [] s
  take_turns vars (relays ∷ turns) ((a, l) ∷ ls) s = elim s.freed [
    | true ↦ none
    | false ↦ elim (relay vars a l s.mxrecord) [
      | none ↦ none
      | some (m, l') ↦ take_turns vars turns ls (record s { mxrecord = m; queued = s.queued + 1 })
    ]
  ]
  take_turns vars (writes ∷ turns) ls s = elim s.queued [
    | zero ↦ take_turns vars turns ls s
    | suc n ↦ elim s.freed [
      | true ↦ none
      | false ↦ elim (write_mxrecord s.files s.mxrecord) [
        | none ↦ none
        | some files ↦
            take_turns vars turns ls (recycle_mxrecord (record s { queued = n; files = files }))
      ]
    ]
  ]
