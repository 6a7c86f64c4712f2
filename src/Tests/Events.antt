-- ===== src/Tests/Events.antt =====
-- The event service at concrete inputs.
use event_alpha.Prelude.{
  ℕ, ◌+◌, ◌≡◌, refl, String, ◌&&◌, ◌||◌, [], ◌∷◌, none, leb, ◌==◌, if◌then◌else◌, keep,
}
use event_alpha.Contracts.{metadata_and_derived_only}
use event_alpha.Contracts.Event.{RawEnvelope}
use event_alpha.Events.Title.{Alphabet, title_fingerprint, jaccard}
use event_alpha.Events.Service.{EventRuntime, joined_event, new_event}

-- ASCII
abbrev pub ascii : Alphabet
ascii = record {
  is_alnum =
      λ c. (leb b'a' c && leb c b'z') || ((leb b'A' c && leb c b'Z') || (leb b'0' c && leb c b'9'));
  lower = λ c. (if leb b'A' c && leb c b'Z' then c + 32 else c) ∷ [];
  is_space = λ c. c == 32;
}

abbrev pub event_runtime : EventRuntime
event_runtime = record {
  alphabet = ascii;
  hex_text = λ d. if d == 1 then "1" else "2";
  uuid_text = λ u. "1";
}

abbrev pub item : ℕ → String → String → ℕ → RawEnvelope
item id source title received_at = record {
  id = id;
  trace_id = id;
  provider = "replay-news";
  source_id = source;
  source_type = "financial_news";
  source_credibility_prior = 50;
  native_id = none;
  event_time = none;
  published_at = none;
  received_at = received_at;
  processed_at = received_at;
  title = title;
  content = "text";
  url = "https://example.invalid/";
  language = "en";
  category = "earnings";
  content_hash = id;
  storage_policy = metadata_and_derived_only;
  independence_group = none;
  derived_attributes = [];
}

similar_titles :
    jaccard
      (title_fingerprint ascii "ACME raises guidance")
      (title_fingerprint ascii "acme: raises Guidance!")
    ≡ record { num = 3; den = 3 }
unfolding title_fingerprint jaccard keep
similar_titles = refl

two_sources :
    (joined_event
      (item 2 "wire" "ACME raises guidance" 50)
      (new_event 7 (item 1 "ir" "ACME raises guidance" 60))).source_independence
    ≡ 75
unfolding joined_event new_event
two_sources = refl
