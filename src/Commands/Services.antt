-- ===== src/Commands/Services.antt =====
-- cmd: what each command gives to server.Run.
use realtime_messaging_platf.Prelude.{Option, none, some}
use realtime_messaging_platf.Effect.{Action, pure, ◌>>=◌}
use realtime_messaging_platf.Server.{Params, SetupDeps, Cleanup}
use realtime_messaging_platf.Commands.Setup.{Platform, setup}

module _ {W K P D A : Type 0} (p : Platform W K P D A) where
  chat_mgmt_setup : SetupDeps → Action W (Option (Cleanup W))
  chat_mgmt_setup deps = setup p deps.config >>= λ service. pure (some service.1)

  unfoldable pub chat_mgmt : Params W
  unfolding chat_mgmt_setup
  chat_mgmt = record {
    name = "chatmgmt";
    port_from_config = λ cfg. cfg.chat_mgmt.http_port;
    grpc_port_from_config = some (λ cfg. cfg.chat_mgmt.grpc_port);
    setup = some chat_mgmt_setup;
  }

module _ {W : Type 0} where
  unfoldable pub gateway : Params W
  gateway = record {
    name = "gateway";
    port_from_config = λ cfg. cfg.gateway.http_port;
    grpc_port_from_config = none;
    setup = none;
  }

  unfoldable pub ingest : Params W
  ingest = record {
    name = "ingest";
    port_from_config = λ cfg. cfg.ingest.http_port;
    grpc_port_from_config = none;
    setup = none;
  }

  unfoldable pub fanout : Params W
  fanout = record {
    name = "fanout";
    port_from_config = λ cfg. cfg.fanout.http_port;
    grpc_port_from_config = none;
    setup = none;
  }
