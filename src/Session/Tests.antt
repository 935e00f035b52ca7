-- ===== src/Session/Tests.antt =====
-- Two reads of a file of five bytes, with blocks of two.
use os_ex.Common.{
  ℕ, if◌then◌else◌, ◌≡◌, refl, arith, [], ◌∷◌, take, drop, Option, some, Outcome, done,
}
use os_ex.Common.Int.{pos, ◌+ℤ◌, ◌-ℤ◌}
use os_ex.Paths.Segments.{render, same_text}
use os_ex.Paths.Tests.{a, c}
use os_ex.Handlers.{Fs}
use os_ex.Read.Cached.{IsPrepared}
use os_ex.Handlers.Tests.{fresh_cache, sys, file, content, fresh, fresh_cache-IsPrepared}
use os_ex.Chain.{deref, modify, erase, retreat, retreat_from, nodes_from, back, pop_back}
use os_ex.Manager.{
  push_empty_slots, assign_bounds, construct_sections, lower_middle, lower_old, correct_bounds,
  count_reference, move_to_head, touch, find_block, retrieve_buffer, least_referenced, evict,
  drop_last, make_room, add_block, insert_block,
}
use os_ex.Block.{Text}
use os_ex.Read.{load_block, fetch, copy_block, read_blocks}
use os_ex.Read.File.{read_wanted, read_from, read_file}
use os_ex.Handlers.{log_call, caching_full_path, unless_log}
use os_ex.Handlers.Reading.{read_stated, caching_read}
use os_ex.Session.{Request, handle, Reaches, begins, serves}
use os_ex.Session.Kept.{Steady, Serving}
use os_ex.Session.Blind.{Calls}
use os_ex.Session.Live.{read_all, read_all-map}
use os_ex.Read.{Call, gives, fails}
use os_ex.Session.Reached.{Reaches-Serving, caching_read-bytes}

file-Steady : Steady sys content
file-Steady = record {
  file = λ att. file;
  shows = λ fh w w' att e. record {
    small = omega arith;
    positive = omega arith;
    pread_block = λ n h. refl;
    content_block = λ n. refl;
  };
  sized = λ att. refl;
}

abbrev left_by : Fs sys → Outcome (Option (Fs sys)) → Fs sys
left_by fs (done (some fs')) = fs'
left_by fs _ = fs

-- The last three bytes are asked for.
abbrev ask : Request
ask = Request.read (render (a ∷ [])) 3 3 (pos 2)

-- The state after the read.
unfoldable asked : Fs sys
asked = left_by fresh (handle sys ask fresh)

program : Unit {0}
unfolding deref modify erase retreat retreat_from nodes_from back pop_back push_empty_slots
    assign_bounds construct_sections lower_middle lower_old correct_bounds count_reference
    move_to_head touch find_block retrieve_buffer least_referenced evict drop_last make_room
    add_block insert_block load_block fetch copy_block read_blocks read_wanted read_from read_file
    log_call caching_full_path unless_log read_stated caching_read handle asked
program = tt

fresh-Reaches-asked : Reaches sys fresh asked
unfolding program ◌+ℤ◌ ◌-ℤ◌
fresh-Reaches-asked = serves begins ask (omega arith) refl

Reaches-Serving_example : Serving sys content 1 1 2 fresh asked
Reaches-Serving_example =
    Reaches-Serving sys content 1 1 2 (omega arith) (omega arith) file-Steady fresh
      fresh_cache-IsPrepared.valid asked fresh-Reaches-asked

-- One byte in the middle of the file, from a block that is cached by then.
caching_read-bytes_example : 4 ∷ [] ≡ take 1 (drop 3 file)
unfolding program ◌+ℤ◌ ◌-ℤ◌ file-Steady
caching_read-bytes_example =
    caching_read-bytes sys content 1 1 2 (omega arith) (omega arith) file-Steady fresh
      fresh_cache-IsPrepared.valid asked
      (left_by asked (handle sys (Request.read (render (a ∷ [])) 3 1 (pos 3)) asked))
      (render (a ∷ [])) 3 1 3 tt 7 (4 ∷ []) fresh-Reaches-asked (omega arith) refl refl

fresh_cache-IsRoomy : IsPrepared content 1 1 2 3 fresh_cache
unfolding construct_sections push_empty_slots
fresh_cache-IsRoomy = record {
  valid = fresh_cache-IsPrepared.valid;
  slots = 4;
  greatest = 1;
  kept = (refl, (omega arith, (omega arith, (omega arith, (omega arith, tt)))));
  room = omega arith;
  low = omega arith;
  positive = omega arith;
}

-- A read of one block and one of two.
read_all-map_example :
    (after : Fs sys) × (read_all sys (render (a ∷ [])) 3 ((2, 0) ∷ (3, 2) ∷ []) fresh
      ≡ done (gives (1 ∷ 2 ∷ []) ∷ gives (3 ∷ 4 ∷ 5 ∷ []) ∷ [], after))
unfolding log_call caching_full_path
read_all-map_example =
    read_all-map sys content 1 1 2 (omega arith) (omega arith) (render (a ∷ []))
      (render (c ∷ a ∷ [])) 3 file tt refl (omega arith)
      (λ w. (
        w,
        refl,
        record {
          small = omega arith;
          positive = omega arith;
          pread_block = λ n h. refl;
          content_block = λ n. refl;
        },
      ))
      ((2, 0) ∷ (3, 2) ∷ []) fresh refl refl ((refl, omega arith), ((refl, omega arith), tt))
      fresh_cache-IsRoomy

-- Nothing is at the path of the log, while `sys` has a file there.
abbrev no_log : {A : Type 0} → Call A → Text → ℕ → Call A × ℕ
no_log r full w = if same_text full (render (c ∷ c ∷ [])) then (fails 2, w) else (r, w)

abbrev without_log : Calls sys
without_log = record {
  lstat = λ full w. no_log (gives tt) full w;
  access = λ full mask w. no_log (gives tt) full w;
  open_file = λ full w. no_log (gives 3) full w;
  opendir = λ full w. no_log (gives 4) full w;
  rename = λ full newpath w. no_log (gives tt) full w;
}
