-- ===== src/Tests/Listings.antt =====
-- The listing of threads and the skill roots (src/core).
use codex_warden.Prelude.{
  arith, false, true, contains, ◌≡◌, refl, String, none, some, List, [], ◌∷◌, ◌++◌, Result, ok, err,
}
use codex_warden.Control.Client.{RequestError, Answer, Client, request}
use codex_warden.Core.Paths.{split_slashes, components}
use codex_warden.Core.Skills.{
  request_failed, invalid_path, is_bad_root, SkillController, new_skills, encode_extra_roots,
  set_extra_roots, reapply_extra_roots,
}
use codex_warden.Core.Calls.{
  SkillCall, set_roots, reapply, Outcome, last_set, sent_in, roots_request, skill_call, skill_calls,
}
use codex_warden.Core.Roots.{skill_calls-last_set}
use codex_warden.Protocol.Frame.{ends_with}
use codex_warden.Core.Threads.{ListedThread, ThreadListPage, list_all}
use codex_warden.Core.Listing.{answers_of, IsChain, requests_of, list_all-keep_first}
use codex_warden.Tests.Sample.{Value, nothing, text, sample}

abbrev thread : String → ListedThread Value
thread id = record { id = id; cwd = "/"; metadata = [] }

-- The thread "b" moves to the second page between the two requests.
abbrev first_page : ThreadListPage Value
first_page = record { listed = thread "a" ∷ thread "b" ∷ []; next_cursor = some "more" }

abbrev last_page : ThreadListPage Value
last_page = record { listed = thread "b" ∷ thread "c" ∷ []; next_cursor = none }

abbrev from_value : Value → Result (ThreadListPage Value) String
from_value (text s) = ok first_page
from_value v = ok last_page

abbrev pages : List (Value × ThreadListPage Value)
pages = (text "1", first_page) ∷ (nothing, last_page) ∷ []

abbrev more : List (Answer Value)
more = err RequestError.closed ∷ []

abbrev client : Client Value
client = record { answers = answers_of pages ++ more; sent = [] }

chained : IsChain [] pages
unfolding contains
chained = ("more", refl, refl, refl)

list_all-keep_first_example :
    list_all sample from_value client
    ≡ some (
      ok (thread "a" ∷ thread "b" ∷ thread "c" ∷ []),
      record { answers = more; sent = requests_of sample from_value none pages },
    )
list_all-keep_first_example =
    list_all-keep_first sample from_value pages more client refl (refl, (refl, tt)) chained

-- Roots are set, refused for a bad path, and replayed twice; the second replay is lost.
abbrev set_and_replay : List SkillCall
set_and_replay =
    reapply ∷ set_roots ("/a/b" ∷ []) ∷ set_roots ("/a/../b" ∷ []) ∷ reapply ∷ reapply ∷ []

abbrev skills_client : Client Value
skills_client = record {
  answers = ok nothing ∷ ok nothing ∷ err RequestError.closed ∷ ok nothing ∷ ok nothing ∷ [];
  sent = [];
}

abbrev from_empty : Value → Result (Unit {0}) String
from_empty v = ok tt

skill_calls-last_set_example :
    (log : List (SkillCall × Outcome Value)) × (last : SkillController Value) × (skill_calls sample
        from_empty set_and_replay
        (new_skills skills_client)
      ≡ some (log, last))
    × (last.extra_roots ≡ last_set none log)
    × (last.client.sent ≡ sent_in sample from_empty none log)
skill_calls-last_set_example =
    skill_calls-last_set sample from_empty set_and_replay skills_client (omega arith)

-- The roots that are remembered, and the outcomes.
replayed :
    skill_calls sample from_empty set_and_replay (new_skills skills_client)
    ≡ some (
      (reapply, ok false)
          ∷ (set_roots ("/a/b" ∷ []), ok true)
          ∷ (
            set_roots ("/a/../b" ∷ []),
            err (invalid_path "skill extra root" "/a/../b" "absolute and lexically normalized"),
          )
          ∷ (reapply, ok true)
          ∷ (reapply, err (request_failed RequestError.closed))
          ∷ [],
      record {
        client = record {
          answers = ok nothing ∷ ok nothing ∷ [];
          sent =
              roots_request sample from_empty ("/a/b" ∷ [])
              ∷ roots_request sample from_empty ("/a/b" ∷ [])
              ∷ roots_request sample from_empty ("/a/b" ∷ [])
              ∷ [];
        };
        extra_roots = some ("/a/b" ∷ []);
      },
    )
unfolding skill_calls skill_call set_extra_roots reapply_extra_roots encode_extra_roots is_bad_root
    components split_slashes request ends_with
replayed = refl
