-- ===== src/Events/Tests.antt =====
-- Runs of the events.
use pjsocky.Events.{push}
use pjsocky.Events.Push.{Writes, push-Writes}
use pjsocky.Json.{end}
use pjsocky.Sample.{sample, sample_world, sample-JsonPrints}

push-Writes_example :
    Writes sample sample_world.connection sample_world (push sample "typing" end sample_world)
push-Writes_example = push-Writes sample "typing" end sample_world sample-JsonPrints
