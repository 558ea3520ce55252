-- ===== src/Core/Listing.antt =====
-- `list_all` lists every thread of every page once (src/core/src/threads.rs).
use codex_warden.Prelude.{
  ◌≡◌, refl, sym, ap, subst, ◌∙◌, inl, inr, Bool, true, false, not, ◌&&◌, String, Option, none,
  some, List, [], ◌∷◌, ◌++◌, filter, Set, contains, set_insert, Result, ok, All, string_eq, ◌==◌,
  arith, Bool-cases, eq_iff,
}
use codex_warden.Protocol.Json.{Json}
use codex_warden.Control.Client.{Answer, Client, note_request}
use codex_warden.Core.Threads.{
  ListedThread, ThreadListPage, Kept, Listing, Listed, keep_thread, keep_page, page_request,
  next_page, list_loop, list_all,
}

append_assoc : {A : Type 0} (xs ys zs : List A) → (xs ++ ys) ++ zs ≡ xs ++ (ys ++ zs)
append_assoc [] ys zs = refl
append_assoc (x ∷ xs) ys zs = ap (λ l. x ∷ l) (append_assoc xs ys zs)

seen_again :
    (a b : String) (seen : Set String)
    → contains a seen ≡ true
    → (not (a == b) && not (contains b seen)) ≡ not (contains b seen)
seen_again a b seen h = elim (Bool-cases (a == b)) [
  | inl same ↦
      let there : contains b seen ≡ true =
        subst (λ c. contains c seen ≡ true) ((eq_iff a b).0 same) h in
      rw (same, there) refl
  | inr other ↦ rw other refl
]

seen_now :
    (a b : String) (seen : Set String)
    → (not (a == b) && not (contains b seen)) ≡ not (contains b (a ∷ seen))
unfolding contains
seen_now a b seen = ground arith

module _ {V : Type 0} where
  -- Each thread whose id has not stood before.
  abbrev pub keep_first : List (ListedThread V) → List (ListedThread V)
  keep_first [] = []
  keep_first (t ∷ rest) = t ∷ filter (λ u. not (t.id == u.id)) (keep_first rest)

  -- the answers that hold the pages, and all their threads
  abbrev pub answers_of : List (V × ThreadListPage V) → List (Answer V)
  answers_of [] = []
  answers_of ((value, page) ∷ rest) = ok value ∷ answers_of rest

  abbrev pub all_threads : List (V × ThreadListPage V) → List (ListedThread V)
  all_threads [] = []
  all_threads ((value, page) ∷ rest) = page.listed ++ all_threads rest

  -- Each page but the last names a next one, under a cursor that is new.
  abbrev pub IsChain : Set String → List (V × ThreadListPage V) → Type 0
  IsChain seen [] = ⊥
  IsChain seen ((value, page) ∷ []) = page.next_cursor ≡ none
  IsChain seen ((value, page) ∷ next ∷ rest) =
      (c : String) × (page.next_cursor ≡ some c)
      × (contains c seen ≡ false)
      × IsChain (set_insert c seen) (next ∷ rest)

  filter-filter :
      (p q r : ListedThread V → Bool) (xs : List (ListedThread V))
      → ((x : ListedThread V) → (q x && p x) ≡ r x)
      → filter p (filter q xs) ≡ filter r xs
  filter-filter p q r [] h = refl
  filter-filter p q r (x ∷ xs) h = ground (arith, h x, filter-filter p q r xs h)

  filter-all :
      (p : ListedThread V → Bool) (xs : List (ListedThread V))
      → ((x : ListedThread V) → p x ≡ true)
      → filter p xs ≡ xs
  filter-all p [] h = refl
  filter-all p (x ∷ xs) h = ground (arith, h x, filter-all p xs h)

  append_nil : (xs : List (ListedThread V)) → xs ++ [] ≡ xs
  append_nil [] = refl
  append_nil (x ∷ xs) = ap (λ l. x ∷ l) (append_nil xs)

  keep_page-threads :
      (ts : List (ListedThread V)) (k : Kept V)
      → (keep_page ts k).threads
        ≡ k.threads ++ filter (λ u. not (contains u.id k.seen)) (keep_first ts)
  unfolding contains
  keep_page-threads [] k = sym (append_nil k.threads)
  keep_page-threads (t ∷ ts) k = elim (Bool-cases (contains t.id k.seen)) [
    | inl old ↦
        rw (old, keep_page, keep_thread)
          (keep_page-threads ts k
            ∙ ap (λ l. k.threads ++ l)
                (sym (
                  filter-filter (λ u. not (contains u.id k.seen)) (λ u. not (t.id == u.id))
                    (λ u. not (contains u.id k.seen)) (keep_first ts)
                    (λ u. seen_again t.id u.id k.seen old))))
    | inr fresh ↦
        rw (fresh, keep_page, keep_thread)
          (keep_page-threads ts (record { seen = t.id ∷ k.seen; threads = k.threads ++ t ∷ [] })
            ∙ append_assoc k.threads (t ∷ []) _
            ∙ ap (λ l. k.threads ++ t ∷ l)
                (sym (
                  filter-filter (λ u. not (contains u.id k.seen)) (λ u. not (t.id == u.id))
                    (λ u. not (contains u.id (t.id ∷ k.seen))) (keep_first ts)
                    (λ u. seen_now t.id u.id k.seen))))
  ]

  keep_page-append :
      (xs ys : List (ListedThread V)) (k : Kept V)
      → keep_page (xs ++ ys) k ≡ keep_page ys (keep_page xs k)
  keep_page-append [] ys k = refl
  keep_page-append (x ∷ xs) ys k = keep_page-append xs ys (keep_thread x k)

module _ {V : Type 0} (J : Json V) (from_value : V → Result (ThreadListPage V) String) where
  -- The requests of a chain of pages: the first without a cursor, each other under the one that
  -- the page before it names.
  abbrev pub requests_of : Option String → List (V × ThreadListPage V) → List (String × V)
  requests_of cursor [] = []
  requests_of cursor ((value, page) ∷ rest) =
      ("thread/list", page_request J from_value cursor) ∷ requests_of page.next_cursor rest

  abbrev pub IsParsed : V × ThreadListPage V → Type 0
  IsParsed (value, page) = from_value value ≡ ok page

  next_page-new :
      (again : Listing V → Client V → Listed V) (c : String) (l : Listing V) (client : Client V)
      → contains c l.seen_cursors ≡ false
      → next_page J from_value again (some c) l client
        ≡ again (record l { cursor = some c; seen_cursors = set_insert c l.seen_cursors }) client
  next_page-new again c l client new = rw (next_page, new) refl

  list_loop-keep_page :
      (pages : List (V × ThreadListPage V)) (more : List (Answer V)) (l : Listing V)
      (client : Client V)
      → All IsParsed pages
      → IsChain l.seen_cursors pages
      → list_loop J from_value (answers_of pages ++ more) l client
        ≡ some (
          ok (keep_page (all_threads pages) l.kept).threads,
          record { answers = more; sent = client.sent ++ requests_of l.cursor pages },
        )
  unfolding list_loop
  list_loop-keep_page [] more l client parsed chain = absurd chain
  list_loop-keep_page ((value, page) ∷ []) more l client parsed chain =
      rw (list_loop, parsed.0, chain, keep_page-append page.listed [] l.kept) refl
  list_loop-keep_page ((value, page) ∷ next ∷ rest) more l client parsed (c, names, new, chain) =
      let later = answers_of (next ∷ rest) ++ more in
      let kept = keep_page page.listed l.kept in
      let asked = note_request "thread/list" (page_request J from_value l.cursor) later client in
      rw (list_loop, parsed.0, names)
        (next_page-new (list_loop J from_value later) c (record l { kept = kept }) asked new
          ∙ list_loop-keep_page (next ∷ rest) more
              (record { cursor = some c; seen_cursors = set_insert c l.seen_cursors; kept = kept })
              asked parsed.1 chain
          ∙ rw
              (
                keep_page-append page.listed (all_threads (next ∷ rest)) l.kept,
                append_assoc client.sent (("thread/list", page_request J from_value l.cursor) ∷ [])
                    (requests_of (some c) (next ∷ rest)),
              )
              refl)

  -- `list_all` lists every thread of every page once. If the answers to come begin with those of a
  -- chain of pages, where each page but the last names a next one under a new cursor, then the
  -- listing ends with the threads of all pages in their order, each id at its first place only,
  -- and it has asked for the pages by their cursors and for nothing else.
  pub list_all-keep_first :
      (pages : List (V × ThreadListPage V)) (more : List (Answer V)) (client : Client V)
      → client.answers ≡ answers_of pages ++ more
      → All IsParsed pages
      → IsChain [] pages
      → list_all J from_value client
        ≡ some (
          ok (keep_first (all_threads pages)),
          record { answers = more; sent = client.sent ++ requests_of none pages },
        )
  unfolding list_all contains
  list_all-keep_first pages more client answers parsed chain =
      let start : Listing V = record {
        cursor = none;
        seen_cursors = [];
        kept = record { seen = []; threads = [] };
      } in
      rw (list_all, answers)
        (list_loop-keep_page pages more start (record client { answers = answers_of pages ++ more })
            parsed chain
          ∙ ap
              (λ ts.
                some
                  (ok ts, record { answers = more; sent = client.sent ++ requests_of none pages }))
              (keep_page-threads (all_threads pages) start.kept
                ∙ filter-all (λ u. true) (keep_first (all_threads pages)) (λ u. refl)))
