-- ===== src/Amqp/Request/Tests.antt =====
-- The theorems on requests and replies at concrete inputs.
use nestjs_amqp.Prelude.{String, true, none, some, List, [], ◌∷◌, ◌≡◌, inl, inr, refl, In}
use nestjs_amqp.Prelude.Result.{AppError, Result, ok, err}
use nestjs_amqp.Admin.Manifest.{Json, text}
use nestjs_amqp.Amqp.Request.{
  got, timed_out, Pending, Event, requests, replies, times_out, publishes, run_events, answers,
  process_direct_reply, start, on_reply, on_timeout, on_publish, happen, timeout_error,
}
use nestjs_amqp.Amqp.Request.Replies.{IsReply, run_events-IsReply}

abbrev reading : String → Result Json
reading content = ok (text content)

abbrev late : AppError
late = timeout_error 500 "orders" "new"

-- two requests with one correlation id, told apart by their X-Request-ID
abbrev exchange : List Event
exchange =
    requests "c" (some "first") late
    ∷ requests "c" (some "second") late
    ∷ publishes 0 none
    ∷ publishes 1 none
    ∷ replies
        (some (record { correlation_id = some "c"; request_id = some "second"; content = "ok" }))
    ∷ times_out 0
    ∷ []

abbrev second : Pending
second = record {
  correlation_id = "c";
  request_id = some "second";
  overdue = late;
  answer = some (got (some (text "ok")));
  confirmed = true;
  settled = some (ok (some (text "ok")));
}

abbrev first : Pending
first = record {
  correlation_id = "c";
  request_id = some "first";
  overdue = late;
  answer = some timed_out;
  confirmed = true;
  settled = some (err late);
}

both_settled : run_events reading exchange [] ≡ first ∷ second ∷ []
unfolding run_events happen start on_reply on_timeout on_publish answers process_direct_reply
both_settled = refl

second_there : In second (run_events reading exchange [])
unfolding run_events happen start on_reply on_timeout on_publish answers process_direct_reply
second_there = inr (inl refl)

run_events-IsReply_example : IsReply reading exchange second (some (text "ok"))
run_events-IsReply_example =
    run_events-IsReply reading exchange second (some (text "ok")) second_there refl
