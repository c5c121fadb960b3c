-- ===== src/Adapters/SqsEndpoint.antt =====
-- pkg/api/adapters/sqs_queue/endpoint_resolver.go: the endpoint of SQS, and the options with which the
-- client connects.
use bfo.Common.{String, str_eq, if◌then◌else◌, Io, wrap, ◌<>◌, map_error, lift, ◌>>=◌, pure}
use bfo.Adapters.Sdk.{Endpoints}

pub record EndpointResolver : Type 0 where
  pub endpoint_url : String

unfoldable pub resolve_endpoint :
    {W Params Url Endpoint : Type 0}
    → Endpoints W Params Url Endpoint
    → EndpointResolver
    → Params
    → Io W Endpoint
resolve_endpoint endpoints r params =
    if str_eq r.endpoint_url "" then endpoints.default_resolver params else (do
      url ← lift (
          map_error
            (λ e.
              endpoints.endpoint_not_found
                (wrap ("failed to parse custom endpoint Url '" <> r.endpoint_url <> "'") e))
            (endpoints.parse_url r.endpoint_url))
      pure (endpoints.with_uri url))
