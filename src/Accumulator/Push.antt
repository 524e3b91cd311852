-- ===== src/Accumulator/Push.antt =====
-- `_push_record` on an accumulator that holds some records.
use ntrt.Prelude.{
  suc, ◌≤◌, ◌<◌, ◌≡◌, ◌∙◌, ◌↔◌, refl, true, false, some, List, [], ◌∷◌, ◌++◌, arith, length,
  Bool-cases, inl, inr,
}
use ntrt.Record.{Record}
use ntrt.Puffer
use ntrt.Puffer.{Puffer}
use ntrt.Puffer.Holds
use ntrt.Accumulator.{Accumulator, push_record, make_room, append_record, drop_first}
use ntrt.Accumulator.Window.{Window, drop_first_lem, append_record_lem}

-- The push returns; the record joins the window, and what it sends back are the records that leave
-- the window: none where there is room, else the oldest one.
pub record Pushed (a : Accumulator) (p : Puffer Record) (r : Record) (q pushed : List Record)
    : Type 0 where
  pub sent : List Record
  pub next : Accumulator
  pub kept : List Record
  pub runs : push_record a r ≡ some (sent, next)
  pub conserved : sent ++ kept ≡ q ++ r ∷ []
  pub at_most_one : length sent ≤ 1
  pub none_with_room : (length sent ≡ 0) ↔ (length q < p.abs_length)
  pub same_length : next.length ≡ a.length
  pub window : Window next kept (pushed ++ r ∷ [])

push_record-runs :
    (a : Accumulator) (r : Record) (p : Puffer Record) (sent : List Record) (b c : Accumulator)
    → a.records ≡ some p
    → make_room a p ≡ some (sent, b)
    → append_record b r ≡ some c
    → push_record a r ≡ some (sent, c)
unfolding push_record
push_record-runs a r p sent b c e m s = cc

make_room_full :
    (a : Accumulator) (p : Puffer Record) (x : Record) (b : Accumulator)
    → Puffer.is_full p ≡ true
    → drop_first a p ≡ some (x, b)
    → make_room a p ≡ some (x ∷ [], b)
unfolding make_room
make_room_full a p x b e d = simp (e, d)

make_room_free :
    (a : Accumulator) (p : Puffer Record) → Puffer.is_full p ≡ false → make_room a p ≡ some ([], a)
unfolding make_room
make_room_free a p e = simp e

-- The push after room is made.
push_with_room :
    (a : Accumulator) (r : Record) (q pushed : List Record) (w : Window a q pushed)
    → a.length ≤ length r.items
    → Puffer.is_full w.puffer ≡ false
    → length q < w.puffer.abs_length
    → Pushed a w.puffer r q pushed
push_with_room a r q pushed w v full room =
    let s = append_record_lem a r q pushed w v room in
    record {
      sent = [];
      next = s.next;
      kept = q ++ r ∷ [];
      runs =
          push_record-runs a r w.puffer [] a s.next w.kept (make_room_free a w.puffer full) s.runs;
      conserved = refl;
      at_most_one = omega arith;
      none_with_room = (λ _. room, λ _. refl);
      same_length = s.same_length;
      window = s.window;
    }

-- The push that takes the oldest record out first.
push_on_full :
    (a : Accumulator) (r x : Record) (q pushed : List Record) (w : Window a (x ∷ q) pushed)
    → a.length ≤ length r.items
    → Puffer.is_full w.puffer ≡ true
    → suc (length q) ≡ w.puffer.abs_length
    → Pushed a w.puffer r (x ∷ q) pushed
push_on_full a r x q pushed w v full size =
    let d = drop_first_lem a x q pushed w in
    let s =
      append_record_lem d.next r q pushed d.window (omega (arith, d.same_length))
        (omega (arith, d.same_size)) in
    record {
      sent = x ∷ [];
      next = s.next;
      kept = q ++ r ∷ [];
      runs =
          push_record-runs a r w.puffer (x ∷ []) d.next s.next w.kept
            (make_room_full a w.puffer x d.next full d.runs) s.runs;
      conserved = refl;
      at_most_one = omega arith;
      none_with_room = (λ e. absurd (omega arith), λ l. absurd (omega arith));
      same_length = s.same_length ∙ d.same_length;
      window = s.window;
    }

-- A push returns whatever the accumulator holds, and the records held and sent back are those held
-- before and the one pushed, in their order; one is sent back only where there is no room.
pub push_record_lem :
    (a : Accumulator) (r : Record) (q pushed : List Record) (w : Window a q pushed)
    → a.length ≤ length r.items
    → Pushed a w.puffer r q pushed
push_record_lem a r [] pushed w v =
    push_with_room a r [] pushed w v
      (Holds.not_full w.puffer [] w.holds (omega (arith, w.holds.start_in)))
      (omega (arith, w.holds.start_in))
push_record_lem a r (x ∷ q) pushed w v = elim (Bool-cases (Puffer.is_full w.puffer)) [
  | inl full ↦
      push_on_full a r x q pushed w v full ((Holds.is_full_lem w.puffer (x ∷ q) w.holds).0 full)
  | inr room ↦
      push_with_room a r (x ∷ q) pushed w v room (Holds.has_room w.puffer (x ∷ q) w.holds room)
]
