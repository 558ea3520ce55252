-- ===== src/Core/Threads.antt =====
-- `ThreadController` (src/core/src/threads.rs). The derived parsers of its types are `from_value`
-- and `read_from_value`, which give an error as its text.
use codex_warden.Prelude.{
  ℕ, true, false, String, Option, none, some, List, [], ◌∷◌, ◌++◌, Map, Set, contains, set_insert,
  Result, ok, err, string_eq, if◌then◌else◌,
}
use codex_warden.Protocol.Json.{Json}
use codex_warden.Control.Client.{Answer, RequestError, Client, note_request, request}

abbrev pub page_size : ℕ
page_size = 100

pub record ListedThread (V : Type 0) : Type 0 where
  pub id : String
  pub cwd : String
  pub metadata : Map String V

pub record ReadTurn (V : Type 0) : Type 0 where
  pub id : String
  pub items : List V
  pub metadata : Map String V

pub record ReadThread (V : Type 0) : Type 0 where
  pub id : String
  pub turns : List (ReadTurn V)
  pub metadata : Map String V

-- `ThreadReadError` has the first two.
pub data ThreadListError (V : Type 0) : Type 0 where
  request_failed : RequestError V → ThreadListError V
  invalid_response : String → ThreadListError V
  repeated_cursor : String → ThreadListError V

pub record ThreadListPage (V : Type 0) : Type 0 where
  -- the field `data`
  pub listed : List (ListedThread V)
  pub next_cursor : Option String

-- `seen_threads` and `threads`
pub record Kept (V : Type 0) : Type 0 where
  pub seen : Set String
  pub threads : List (ListedThread V)

pub record Listing (V : Type 0) : Type 0 where
  pub cursor : Option String
  pub seen_cursors : Set String
  pub kept : Kept V

module _ {V : Type 0} where
  abbrev pub keep_thread : ListedThread V → Kept V → Kept V
  keep_thread t k =
      if contains t.id k.seen
      then k
      else record { seen = t.id ∷ k.seen; threads = k.threads ++ t ∷ [] }

  -- the threads of a page
  abbrev pub keep_page : List (ListedThread V) → Kept V → Kept V
  keep_page [] k = k
  keep_page (t ∷ rest) k = keep_page rest (keep_thread t k)

abbrev pub Listed : Type 0 → Type 0
Listed V = Option (Result (List (ListedThread V)) (ThreadListError V) × Client V)

module _ {V : Type 0} (J : Json V) (from_value : V → Result (ThreadListPage V) String) where
  abbrev pub cursor_value : Option String → V
  cursor_value none = J.null
  cursor_value (some c) = J.string c

  abbrev pub page_request : Option String → V
  page_request cursor = J.object (
      ("cursor", cursor_value cursor)
      ∷ ("limit", J.number page_size)
      ∷ ("sortKey", J.string "updated_at")
      ∷ ("sortDirection", J.string "desc")
      ∷ [])

  -- `again` is the rest of the loop.
  abbrev pub next_page :
      (Listing V → Client V → Listed V) → Option String → Listing V → Client V → Listed V
  next_page again none l client = some (ok l.kept.threads, client)
  next_page again (some c) l client = elim (contains c l.seen_cursors) [
    | true ↦ some (err (repeated_cursor c), client)
    | false ↦
        again (record l { cursor = some c; seen_cursors = set_insert c l.seen_cursors }) client
  ]

  abbrev pub list_page :
      (Listing V → Client V → Listed V)
      → Result (ThreadListPage V) String
      → Listing V
      → Client V
      → Listed V
  list_page again (err e) l client = some (err (invalid_response e), client)
  list_page again (ok page) l client =
      next_page again page.next_cursor (record l { kept = keep_page page.listed l.kept }) client

  abbrev pub list_answer :
      (Listing V → Client V → Listed V) → Answer V → Listing V → Client V → Listed V
  list_answer again (err e) l client = some (err (request_failed e), client)
  list_answer again (ok value) l client = list_page again (from_value value) l client

  -- The loop on the answers to come; `none` where an answer never comes.
  unfoldable pub list_loop : List (Answer V) → Listing V → Client V → Listed V
  list_loop [] l client = none
  list_loop (answer ∷ rest) l client =
      list_answer (list_loop rest) answer l
        (note_request "thread/list" (page_request l.cursor) rest client)

  unfoldable pub list_all : Client V → Listed V
  unfolding list_loop
  list_all client =
      list_loop client.answers
        (record { cursor = none; seen_cursors = []; kept = record { seen = []; threads = [] } })
        client

module _ {V : Type 0} (J : Json V) (read_from_value : V → Result (ReadThread V) String) where
  abbrev pub read_answer :
      Answer V × Client V → Result (ReadThread V) (ThreadListError V) × Client V
  read_answer (err e, client) = (err (request_failed e), client)
  read_answer (ok value, client) = elim (read_from_value value) [
    | ok thread ↦ (ok thread, client)
    | err e ↦ (err (invalid_response e), client)
  ]

  unfoldable pub read :
      String → Client V → Option (Result (ReadThread V) (ThreadListError V) × Client V)
  unfolding request
  read thread_id client =
      elim (request "thread/read"
        (J.object (("threadId", J.string thread_id) ∷ ("includeTurns", J.bool true) ∷ [])) client) [
          | none ↦ none
          | some reply ↦ some (read_answer reply)
        ]
