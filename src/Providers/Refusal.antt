-- ===== src/Providers/Refusal.antt =====
-- pkg/api/adapters/providers and pkg/api/business/resources/service.go, `DispatchTask`: what the
-- answer of the provider's server does to a task that is dispatched.
use bfo.Common.{
  ℕ, ◌⊎◌, ◌≡◌, ◌≤◌, ◌<◌, true, arith, String, some, none, Res, ok, fail, wrap, ◌<>◌, Runtime,
  Succeeds, is_ok, add64,
}
use bfo.Tasks.Types.{Task}
use bfo.Resources.Types.{ConfigResource, ResourceInstanceState, CreateBatchRequest}
use bfo.Resources.Service.{Service}
use bfo.Resources.Dispatch.{dispatch_task, book, create_batch, settle_batch}
use bfo.Resources.Booking.{HasWords, dispatch_task-refused}
use bfo.Providers.Exchange.{Request, Response, Net}
use bfo.Providers.OpenAi as OpenAi
use bfo.Providers.OpenAi.{is_refused, refusal, send, new_request, open_ai_client}
use bfo.Providers.Echo as Echo
use bfo.Providers.Echo.{echo_client, zero_batch}

-- A request that comes back with a value was answered with a status from 200 to 299, and with a
-- body that decodes to the value.
pub send-accepted :
    {W Writer A : Type 0} (net : Net W Writer) (config : ConfigResource) (decode : Response → Res A)
    (req : Request) (w : W) (a : A)
    → (send net config decode req w).0 ≡ ok a
    → (resp : Response) × ((net.do_request req w).0 ≡ ok resp)
      × (200 ≤ resp.status_code)
      × (resp.status_code < 300)
      × (decode resp ≡ ok a)
unfolding send is_refused
send-accepted net config decode req w a done = grind arith

create_batch-refused :
    {W Writer : Type 0} (net : Net W Writer) (config : ConfigResource) (resp : Response)
    (request : CreateBatchRequest) (v : W)
    → ((method url : String) → net.request_error method url ≡ none)
    → ((r : CreateBatchRequest) → is_ok (net.marshal_batch_request r) ≡ true)
    → ((r : Request) (v : W) → (net.do_request r v).0 ≡ ok resp)
    → is_refused resp.status_code ≡ true
    → ((open_ai_client net config).create_batch request v).0
      ≡ fail (refusal net config "api request" resp)
unfolding open_ai_client OpenAi.create_batch OpenAi.new_request OpenAi.send
create_batch-refused net config resp request v valid marshals answers refused =
    grind (arith, valid, marshals, answers)

is_refused-outside : (status : ℕ) → (status < 200) ⊎ (300 ≤ status) → is_refused status ≡ true
unfolding is_refused
is_refused-outside status outside = ground arith

-- An answer of the server outside 200 to 299 is undone: if requests can be made, the batch
-- request can be written, and the server answers every request so, then `DispatchTask` on a
-- resource of this client, whose state is read and stored without errors, stores last the batches
-- and the token load that it has read, and its error holds the status and the body of the answer.
pub open_ai_client-refused :
    {W Writer : Type 0} (net : Net W Writer) (config : ConfigResource) (resp : Response)
    (rt : Runtime W) (s : Service W) (key : String) (task : Task) (state : ResourceInstanceState)
    (w w1 : W)
    → ((method url : String) → net.request_error method url ≡ none)
    → ((r : CreateBatchRequest) → is_ok (net.marshal_batch_request r) ≡ true)
    → ((r : Request) (v : W) → (net.do_request r v).0 ≡ ok resp)
    → (resp.status_code < 200) ⊎ (300 ≤ resp.status_code)
    → HasWords state
    → s.repository.get_resource_instance_state key w ≡ (ok (some state), w1)
    → ((stored : ResourceInstanceState)
        → Succeeds (s.repository.put_resource_instance_state stored))
    → let restored = record state {
      last_activity_time = (rt.now w1).0;
      version = add64 (add64 state.version 1) 1;
    } in
      (v : W) × (dispatch_task rt s key (open_ai_client net config) task w ≡ (
        fail (
            wrap
              ("failed to create batch for task " <> task.id)
              (refusal net config "api request" resp)),
        (s.repository.put_resource_instance_state restored v).1,
      ))
open_ai_client-refused net config resp rt s key task state w w1 valid marshals answers outside words
      read put =
    (
      _,
      dispatch_task-refused rt s key (open_ai_client net config) task state
          (refusal net config "api request" resp) w w1 words read put
          (λ request v.
            create_batch-refused net config resp request v valid marshals answers
              (is_refused-outside resp.status_code outside)),
    )

-- The echo client accepts every task, with a batch that has no id, and the booked state stays.
pub echo_client-accepts :
    {W Writer : Type 0} (net : Net W Writer) (rt : Runtime W) (s : Service W) (key : String)
    (task : Task) (state : ResourceInstanceState) (w w1 : W)
    → ((method url : String) → net.request_error method url ≡ none)
    → ((r : CreateBatchRequest) → is_ok (net.marshal_batch_request r) ≡ true)
    → s.repository.get_resource_instance_state key w ≡ (ok (some state), w1)
    → ((stored : ResourceInstanceState)
        → Succeeds (s.repository.put_resource_instance_state stored))
    → let (now, w2) = rt.now w1 in
      dispatch_task rt s key (echo_client net) task w
      ≡ (ok zero_batch, (s.repository.put_resource_instance_state (book task now state) w2).1)
unfolding dispatch_task create_batch settle_batch echo_client Echo.create_batch Echo.new_request
    Echo.send
echo_client-accepts net rt s key task state w w1 valid marshals read put =
    grind (arith, valid, marshals, put)
