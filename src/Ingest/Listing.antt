-- ===== src/Ingest/Listing.antt =====
-- The bounds of a reconciliation's listing (src/ingest/src/lib.rs).
use codex_warden.Prelude.{
  ℕ, zero, suc, ◌+◌, ◌≤◌, ◌<◌, ◌≡◌, refl, ap, ◌⊎◌, inl, inr, max, true, false, not, ◌&&◌, ◌||◌,
  String, Option, some, get_or, and_then, is_some, List, [], ◌∷◌, ◌++◌, length, length-append,
  arith, Bool-cases, Option-cases, Result, ok, err, ltb, leb, if◌then◌else◌,
}
use codex_warden.Protocol.Json.{Json}
use codex_warden.Protocol.Event.{get_str}
use codex_warden.Control.Client.{Answer, Client, request}
use codex_warden.Ingest.State.{IngestConfig, IngestError}
use codex_warden.Ingest.Reading.{numeric_timestamp}
use codex_warden.Ingest.Reconcile.{Listing, scan, page, list_params, pages}

-- From one listing to a later one: the watermark never falls, and the candidates stay within a
-- limit.
pub record IsListed (limit : ℕ) (before after : Listing) : Type 0 where
  pub within : length after.candidates ≤ limit
  pub newer : before.newest_watermark ≤ after.newest_watermark

module _ {V : Type 0} (J : Json V) where
  -- What the listing yields, if no request failed.
  abbrev pub EndsListed : ℕ → Listing → Result Listing (IngestError V) → Type 0
  EndsListed limit before (ok after) = IsListed limit before after
  EndsListed limit before (err e) = Unit

  scan-IsListed :
      (previous limit : ℕ) (threads : List V) (l : Listing)
      → length l.candidates < limit
      → IsListed limit l (scan J previous limit threads l).0
  unfolding scan
  scan-IsListed previous limit [] l h = record { within = omega arith; newer = omega arith }
  scan-IsListed previous limit (thread ∷ threads) l h =
      elim (Option-cases (get_str J thread "id")) [
        | inl e ↦ rw (e, scan) (scan-IsListed previous limit threads l h)
        | inr (id, e) ↦
            rw (e, scan)
              (seen id (get_or (numeric_timestamp J (J.get thread "updatedAt")) 0)
                (λ found less. scan-IsListed previous limit threads found less))
      ]
    where
      seen :
          (id : String) (updated : ℕ)
          → ((found : Listing)
              → length found.candidates < limit
              → IsListed limit found (scan J previous limit threads found).0)
          → let found : Listing = record {
            newest_watermark = max l.newest_watermark updated;
            candidates = l.candidates ++ id ∷ [];
          } in
            IsListed limit l
              (if ltb 0 previous && leb updated previous
                then (record l { newest_watermark = max l.newest_watermark updated }, true)
                else if leb limit (length found.candidates)
                then (found, false)
                else scan J previous limit threads found).0
      seen id updated ih = elim (Bool-cases (ltb 0 previous && leb updated previous)) [
        | inl old ↦ rw old (record { within = omega arith; newer = omega arith })
        | inr fresh ↦ elim (Bool-cases (leb limit (length (l.candidates ++ id ∷ [])))) [
          | inl full ↦
              rw (fresh, full)
                (record {
                  within = omega (arith, length-append l.candidates (id ∷ []));
                  newer = omega arith;
                })
          | inr less ↦
              rw (fresh, less)
                (let r =
                    ih
                      (record {
                        newest_watermark = max l.newest_watermark updated;
                        candidates = l.candidates ++ id ∷ [];
                      })
                      (ground (arith, less)) in
                  record { within = r.within; newer = omega (arith, r.newer) })
        ]
      ]

  request_lem :
      (method : String) (params : V) (client : Client V)
      → 0 < length client.answers
      → (answer : Answer V) × (after : Client V) × (request method params client
          ≡ some (answer, after))
        × (suc (length after.answers) ≡ length client.answers)
        × (length after.sent ≡ suc (length client.sent))
  unfolding request
  request_lem method params client h = go client.answers refl
    where
      go :
          (answers : List (Answer V))
          → client.answers ≡ answers
          → (answer : Answer V) × (after : Client V) × (request method params client
              ≡ some (answer, after))
            × (suc (length after.answers) ≡ length client.answers)
            × (length after.sent ≡ suc (length client.sent))
      go [] e = absurd (omega (arith, h, ap length e))
      go (answer ∷ rest) e = (
        answer,
        record { answers = rest; sent = client.sent ++ (method, params) ∷ [] },
        rw (e, request) refl,
        omega (arith, ap length e),
        omega (arith, length-append client.sent ((method, params) ∷ [])),
      )

  page_cases :
      (r : Result (List V × Option String) (IngestError V))
      → ((e : IngestError V) × (r ≡ err e))
        ⊎ ((threads : List V) × (next : Option String) × (r ≡ ok (threads, next)))
  page_cases (err e) = inl (e, refl)
  page_cases (ok (threads, next)) = inr (threads, next, refl)

  -- The listing of a reconciliation is bounded. With an answer at hand for each page that is left,
  -- the loop over the pages ends; it has asked for at most so many pages; and if no request
  -- failed, the candidates are within the limit, if they were so before, and the watermark has not
  -- fallen.
  pub pages_bounded :
      (config : IngestConfig) (previous left : ℕ) (cursor : Option String) (l : Listing)
      (client : Client V)
      → length l.candidates ≤ config.reconcile_candidate_limit
      → left ≤ length client.answers
      → (result : Result Listing (IngestError V)) × (after : Client V) × (pages J config previous
            left cursor l client
          ≡ some (result, after))
        × (length after.sent ≤ length client.sent + left)
        × EndsListed config.reconcile_candidate_limit l result
  unfolding pages
  pages_bounded config previous zero cursor l client h g =
      (ok l, client, refl, omega arith, record { within = h; newer = omega arith })
  pages_bounded config previous (suc left) cursor l client h g =
      elim (Bool-cases (leb config.reconcile_candidate_limit (length l.candidates))) [
        | inl full ↦
            rw (full, pages)
              (ok l, client, refl, omega arith, record { within = h; newer = omega arith })
        | inr room ↦
            let (answer, after, runs, used, asked) =
              request_lem "thread/list" (list_params J config cursor) client (omega arith) in
            elim (page_cases (page J answer)) [
              | inl (e, p) ↦
                  rw (room, pages, runs, and_then, p) (err e, after, refl, omega (arith, asked), tt)
              | inr (threads, next, p) ↦
                  let (scanned, reached) =
                    scan J previous config.reconcile_candidate_limit threads l in
                  let step =
                    scan-IsListed previous config.reconcile_candidate_limit threads l
                      (ground (arith, room)) in
                  elim (Bool-cases (reached || not (is_some next))) [
                    | inl stop ↦
                        rw (room, pages, runs, and_then, p, stop)
                          (ok scanned, after, refl, omega (arith, asked), step)
                    | inr go_on ↦
                        let (result, last, ends, count, listed) =
                          pages_bounded config previous left next scanned after step.within
                            (omega (arith, used)) in
                        rw (room, pages, runs, and_then, p, go_on)
                          (
                            result,
                            last,
                            ends,
                            omega (arith, asked, count),
                            listed_later step result listed,
                          )
                  ]
            ]
      ]
    where
      listed_later :
          {m : Listing}
          → IsListed config.reconcile_candidate_limit l m
          → (result : Result Listing (IngestError V))
          → EndsListed config.reconcile_candidate_limit m result
          → EndsListed config.reconcile_candidate_limit l result
      listed_later step (err e) r = tt
      listed_later step (ok l') r = record {
        within = r.within;
        newer = omega (arith, step.newer, r.newer);
      }
