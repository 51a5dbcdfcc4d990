-- ===== src/Jos/Pages.antt =====
-- lab-3/kern/pmap.c: `page_alloc`, `page_free` and `page_decref`.
use cs_1217_operating_system.Base.{
  ℕ, ◌+◌, ◌%◌, Bool, Option, none, some, ◌==◌, if◌then◌else◌, update,
}
use cs_1217_operating_system.Jos.{Cmd, pure, ◌>>=◌, ◌>>◌, get, put, check_page}

-- `memset(page2kva(pp), 0, PGSIZE)`
unfoldable pub clear : ℕ → Cmd (Unit {0})
clear p = do _ ← check_page p; s ← get; put (record s { memory = update s.memory p (λ _. 0) })

-- `page_alloc` with `page_free_list` given; `zeroed` is ALLOC_ZERO.
unfoldable pub alloc_from : Bool → Option ℕ → Cmd (Option ℕ)
unfolding clear
alloc_from zeroed none s = some (none, s)
alloc_from zeroed (some p) s =
    let s' = record s { free_list = s.link p; link = update s.link p none } in
    if zeroed then (do clear p; pure (some p)) s' else some (some p, s')

unfoldable pub page_alloc : Bool → Cmd (Option ℕ)
unfolding alloc_from
page_alloc zeroed s = alloc_from zeroed s.free_list s

-- `page_free`
unfoldable pub page_free : ℕ → Cmd (Unit {0})
page_free p s =
    if s.ref p == 0
    then elim (s.link p) [
      | some _ ↦ none
      | none ↦ some (tt, record s { link = update s.link p s.free_list; free_list = some p })
    ]
    else none

-- `page_decref`, with the 16-bit count wrapping around
unfoldable pub page_decref : ℕ → Cmd (Unit {0})
unfolding page_free
page_decref p s =
    let count = (s.ref p + 65535) % 65536 in
    let s' = record s { ref = update s.ref p count } in
    if count == 0 then page_free p s' else some (tt, s')
