-- ===== src/Tests/OutsideTests.antt =====
-- A client with a bound port asks 8.8.8.8 on port 53 and is answered.
use lwproxy.Base.{◌≡◌, refl, [], ◌∷◌, ◌++◌, some, true, Bytes, arith, if◌then◌else◌}
use lwproxy.Result.{ok}
use lwproxy.Wire.{from_be_from}
use lwproxy.Wire.Model.{plain_buf, split_at}
use lwproxy.Frame
use lwproxy.Frame.{Frame, decode, peer}
use lwproxy.Translate
use lwproxy.Translate.{
  Translator, translator, family, open_socket, send_to, relay_frame, is_open, outgoing, received,
  goes_on,
}
use lwproxy.Network.{to_egress}
use lwproxy.Lease.{by_network}
use lwproxy.Proxy.{on_stream, readers}
use lwproxy.Proxy.Delivery.{sends, hears}
use lwproxy.Proxy.Outside.{hears-answers}
use lwproxy.Tests.Sample.{counting}
use lwproxy.Tests.DeliveryTests.{met, next_door, lodged, lodgers, lodgers-Reach, second-Binds}

abbrev question : Frame
question = record { peer_ip = 0xffff08080808; peer_port = 53; content = 9 ∷ 9 ∷ [] }

abbrev question_bytes : Bytes
question_bytes =
    0x77 ∷ 0x8B ∷ 0x4C ∷ 0xF6 ∷ 0 ∷ 0 ∷ 0 ∷ 0 ∷ 0 ∷ 0 ∷ 0 ∷ 0 ∷ 0 ∷ 0 ∷ 0xff ∷ 0xff ∷ 8 ∷ 8 ∷ 8 ∷ 8
    ∷ 0 ∷ 53 ∷ 0 ∷ 2 ∷ 9 ∷ 9 ∷ []

question_runs : decode plain_buf question_bytes ≡ ok question
unfolding decode split_at from_be_from
question_runs = refl

abbrev task : Translator
task = translator next_door.key next_door.egress 5

hears-answers_example :
    (sends plain_buf counting met lodgers.world (on_stream lodged) question_bytes true
      ≡ some (by_network (to_egress 2 (peer question) question.content ∷ [])))
    × ((t' : Translator) × (out : Bytes) × (Translate.step plain_buf task
            (outgoing (peer question) question.content true)
          ≡ ok (
            goes_on t',
            (if is_open task (family (peer question))
                  then []
                  else open_socket (family (peer question)) ∷ [])
                ++ (send_to (family (peer question)) (peer question) question.content ∷ []),
          ))
        × (is_open t' (family (peer question)) ≡ true)
        × (Translate.step plain_buf t'
              (received (family (peer question)) (some (2, peer question)) (7 ∷ 8 ∷ 9 ∷ []) true)
            ≡ ok (goes_on t', relay_frame 5 out ∷ []))
        × (decode plain_buf out ≡ ok (Frame.new 0xffff08080808 53 (7 ∷ 8 ∷ [])))
        × (hears plain_buf counting met lodgers.world (on_stream lodged) out true ≡ some out))
    × (readers 5 lodgers.clients ≡ 1)
unfolding translator
hears-answers_example =
    hears-answers plain_buf counting met 2 lodgers (on_stream lodged) next_door task question_bytes
      question (7 ∷ 8 ∷ 9 ∷ []) 2 true lodgers-Reach (omega arith) second-Binds refl (omega arith)
      question_runs refl (omega arith) (omega arith) (omega arith)
