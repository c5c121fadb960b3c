-- ===== src/Adapters/Sdk.antt =====
-- What both adapters ask of the AWS SDK when they connect: the loading of its configuration, and
-- the making of a client. `Cfg` is the SDK's configuration.
use bfo.Common.{String, List, Io, Res, GoError}

-- `config.WithSharedConfigProfile` and `config.WithRegion`
pub data LoadOption : Type 0 where
  with_shared_config_profile : String → LoadOption
  with_region : String → LoadOption

-- `Resolver` is the adapter's endpoint resolver, the only option that the adapters give.
pub record Sdk (W Cfg Resolver Client : Type 0) : Type 0 where
  pub load_default_config : List LoadOption → Io W Cfg
  pub new_from_config : Cfg → List Resolver → Client

-- What a resolver asks: `url.Parse`, an endpoint at an url, the service's default resolver, and
-- `aws.EndpointNotFoundError` around an error.
pub record Endpoints (W Params Url Endpoint : Type 0) : Type 0 where
  pub parse_url : String → Res Url
  pub with_uri : Url → Endpoint
  pub default_resolver : Params → Io W Endpoint
  pub endpoint_not_found : GoError → GoError
