-- ===== src/Tests/Requests.antt =====
-- The theorems on the HTTP handlers and on the providers' clients at concrete inputs.
use bfo.Common.{
  inr, ◌≡◌, refl, true, false, Bool, ok, fail, none, some, Option, [], ◌∷◌, String, arith, plain,
  wrap, ◌<>◌, if◌then◌else◌, str_eq, lookup,
}
use bfo.Tasks.Service.{Service, fill_task, submit_task}
use bfo.Tasks.Service as Tasks
use bfo.Http.{ok_result, Request, Decoder, put_task}
use bfo.Resources.Types.{ConfigResource}
use bfo.Resources.Dispatch as Dispatch
use bfo.Providers.Exchange.{Net, Response}
use bfo.Providers.OpenAi.{refusal, property, open_ai_client}
use bfo.Providers.Requests.{open_ai_client-KeepsCalls}
use bfo.Providers.Refusal.{open_ai_client-refused}
use bfo.Providers.Echo.{zero_batch}
use bfo.Tests.{World, start, rt, task_a, bucket_a, service_a, repository_a}
use bfo.Tests.Capacity.{pool, state_a, small_task}

-- `held` says that a message of the bucket "b2" was sent.
abbrev sending : Service World
sending = record service_a {
  repository = record repository_a {
    enqueue_task = λ url t w. (ok tt, record w { held = str_eq t.bucket_id "b2" });
  };
}

abbrev pub decoder_a : Decoder (Unit {0})
decoder_a = record { decode_task = λ body. ok task_a; decode_task_bucket = λ body. ok bucket_a }

abbrev pub request_a : Request (Unit {0})
request_a = record { bucket = "b2"; id = "x"; body = tt }

answered : (put_task decoder_a sending rt request_a start).0 ≡ ok ok_result
unfolding put_task Tasks.dispatch_task fill_task submit_task
answered = refl

abbrev key_config : ConfigResource
key_config = record {
  instances = [];
  models = [];
  properties = ("API_KEY", "k") ∷ ("BASE_URL", "https://host/v1") ∷ [];
  provider = "openai";
  period = 0;
  disabled = false;
}

abbrev is_key : Option String → Bool
is_key none = false
is_key (some value) = str_eq value "Bearer k"

abbrev unavailable : Response
unavailable = record { status_code = 503; body = []; read_error = none }

-- `held` says that every request had the key.
abbrev net_a : Net World (Unit {0})
net_a = record {
  request_error = λ method url. none;
  do_request = λ r w. (
    ok unavailable,
    record w { held = if is_key (lookup "Authorization" r.header) then w.held else false },
  );
  text_of = λ b. "busy";
  new_writer = λ w. (tt, w);
  write_field = λ name value writer. ok tt;
  create_form_file = λ name file writer. ok tt;
  copy = λ content writer. ok tt;
  close = λ writer. ok tt;
  written = λ writer. [];
  form_data_content_type = λ writer. "multipart/form-data";
  marshal_batch_request = λ r. ok [];
  decode_file = λ r. fail (plain "no file");
  decode_batch = λ r. ok zero_batch;
  decode_list = λ r. fail (plain "no list");
  query_values = λ params. ok "";
}

bearer_k : is_key (some ("Bearer " <> property "API_KEY" key_config)) ≡ true
unfolding lookup
bearer_k = refl

open_ai_client-KeepsCalls_example :
    ((open_ai_client net_a key_config).retrieve_batch "b1" start).1.held ≡ true
open_ai_client-KeepsCalls_example =
    (open_ai_client-KeepsCalls (λ w. w.held ≡ true) net_a key_config (λ w p. p)
        (λ r h w p. rw (h.authorization, bearer_k) p)).retrieve_batch
      "b1" start refl

open_ai_client-refused_example :
    (v : World) × (Dispatch.dispatch_task rt pool "gpu"
        (open_ai_client net_a key_config)
        small_task
        start
      ≡ (
        fail (
            wrap
              ("failed to create batch for task " <> "t")
              (refusal net_a key_config "api request" unavailable)),
        record v { stored = true },
      ))
open_ai_client-refused_example =
    open_ai_client-refused net_a key_config unavailable rt pool "gpu" small_task state_a start start
      (λ method url. refl) (λ r. refl) (λ r v. refl) (inr (omega arith)) (ground arith) refl
      (λ stored w. refl)
