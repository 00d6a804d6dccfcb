-- ===== src/System/Interleaved/Mediated.antt =====
-- What a request has passed when the plugin is called, with its requests interleaved: each check was
-- passed on the state of its own moment.
use apicorex.Server.Chain.{Server}
use apicorex.Program.{Program}
use apicorex.System
use apicorex.Config.{Config}
use apicorex.System.Interleaved.Known.{Known}
