-- ===== src/Jobs/Tests/Intake.antt =====
-- The intake on a concrete message (app/jobs/kafka.py).
use ktb4_2nd_ai.Prelude.{ℕ, ◌≡◌, refl, true, none, some, [], ◌∷◌, arith}
use ktb4_2nd_ai.Jobs.Models.{process}
use ktb4_2nd_ai.Jobs.Store.{decimal, identity}
use ktb4_2nd_ai.Jobs.Methods.{register_as, drop_batches, enqueue}
use ktb4_2nd_ai.Jobs.Steps.{Reach, empty}
use ktb4_2nd_ai.Jobs.Intake.{
  object, natural, text, array, item, no_items, Members, member, no_members, get, Parsers, Incoming,
  Topics, topics, Intake, answered, broken_after, delivered, committed, Round, trip_of,
  execution_of, type_of, envelope, count_items, total_of, new_record, register_record,
  accept_request, accept_members, decode, accept_json, accept, done, on_commit, on_answer, consume,
}
use ktb4_2nd_ai.Jobs.Intake.Laws.{consume-Reach}
use ktb4_2nd_ai.Jobs.Intake.Settled.{IsSettled, consume-IsSettled}
use ktb4_2nd_ai.Jobs.Intake.Returns.{IsQuiet, consume_returns}
use ktb4_2nd_ai.Jobs.Tests.{codec, cfg}

-- a request of trip 7 with one photo
abbrev request : Members
request = member "trip_id" (natural 7) (
    member "execution_id" (text "e1") (
      member "type" (text "process")
        (member "attachments" (array (item (natural 1) no_items)) no_members)))

abbrev parsers : Parsers
parsers = record {
  loads = λ t. some (object request);
  encodes = λ j. true;
  validate_message = λ b. some b;
  validate_photos = λ b. none;
  dumps = λ b. "{}";
  sha256 = λ t. t;
  buffer_size = λ b. 0;
}

abbrev names : Topics
names = record {
  trip_create_request = "create";
  trip_create_result = "created";
  trip_update_request = "update";
  trip_update_result = "updated";
  story_create_request = "story";
  story_create_result = "told";
}

abbrev message : Incoming
message = record { topic = "create"; partition = 0; offset = 5; key = some "7"; value = some "{}" }

abbrev quiet : ℕ → Round
quiet now = record {
  now = now;
  call = answered;
  count = answered;
  send = delivered;
  commit = committed;
  assigned = true;
}

-- the reply of the registration is lost
abbrev lost : Round
lost = record (quiet 10) { call = broken_after }

abbrev fresh : Intake
fresh = record { store = empty; invalid = λ k. none; dlt = [] }

abbrev routed : topics names "create" ≡ some (process, "created")
unfolding topics
routed = refl

consumed : (consume parsers codec cfg names message (lost ∷ quiet 20 ∷ []) fresh).0 ≡ some (done 6)
unfolding consume accept topics decode accept_json accept_members envelope get trip_of execution_of
    type_of decimal accept_request new_record total_of count_items register_record register_as
    identity drop_batches enqueue on_answer on_commit
consumed = refl

quiet-IsQuiet : (now : ℕ) → IsQuiet (quiet now)
quiet-IsQuiet now = record { call = refl; count = refl; send = refl; commit = refl }

consume-Reach_example :
    Reach codec cfg empty
      (consume parsers codec cfg names message (lost ∷ quiet 20 ∷ []) fresh).1.store
consume-Reach_example = consume-Reach codec cfg parsers names message (lost ∷ quiet 20 ∷ []) fresh

consume-IsSettled_example :
    ◌≡◌ {A = ℕ} 6 6
    × IsSettled parsers cfg process message
        (consume parsers codec cfg names message (lost ∷ quiet 20 ∷ []) fresh).1
consume-IsSettled_example =
    consume-IsSettled parsers codec cfg names process "created" message (lost ∷ quiet 20 ∷ []) fresh
      6 routed consumed

consume_returns_example :
    (consume parsers codec cfg names message (quiet 10 ∷ quiet 20 ∷ quiet 30 ∷ []) fresh).0
    ≡ some (done 6)
consume_returns_example =
    consume_returns parsers codec cfg names process "created" message (quiet 10) (quiet 20)
      (quiet 30) fresh routed (quiet-IsQuiet 10) (quiet-IsQuiet 20) (quiet-IsQuiet 30)
      (ground arith) (ground arith)
