-- ===== src/Socket/Send/Tests.antt =====
-- A text of five bytes, of which the system takes two at first.
use agssock.Base.{ℕ, ◌≡◌, ◌<◌, refl, Bool, some, List, [], ◌∷◌, ◌++◌, take}
use agssock.Objects.{Socket}
use agssock.World.{World, store}
use agssock.Socket.Samples.{Net, sample_os, sample_socket, sample_world, sample-Sends}
use agssock.Socket.Send.{send_loop, send_impl}
use agssock.Socket.Send.Laws.{Sent, send_impl-Sent, send_impl_again}

abbrev sender : Socket
sender = sample_socket 1 6 []

abbrev text : List ℕ
text = 1 ∷ 2 ∷ 3 ∷ 4 ∷ 5 ∷ []

abbrev before : World Net
before = sample_world sender (2 ∷ 0 ∷ []) []

abbrev taken_by : Net → List ℕ
taken_by net = net.taken

send_impl-Sent_example :
    (b : Bool) × (w' : World Net) × (send_impl sample_os 9 text before ≡ some (b, w'))
    × Sent taken_by (sample_os.send sender.id) 9 sender text before w' b
send_impl-Sent_example = send_impl-Sent sample_os taken_by 9 sender text before refl sample-Sends

-- The worlds after a first call and after a second.
abbrev halfway : World Net
halfway =
    store
      (record before { kernel = record { taken = 1 ∷ 2 ∷ []; plan = []; inbox = [] }; errno = 11 })
      9 (record sender { error = 0 })

abbrev after : World Net
after =
    store
      (record halfway {
        kernel = record { taken = 1 ∷ 2 ∷ 1 ∷ 2 ∷ 3 ∷ 4 ∷ 5 ∷ []; plan = []; inbox = [] };
      })
      9 (record sender { error = 0 })

send_impl_again_example :
    (m : ℕ) × (m < 5)
    × (◌≡◌ {A = List ℕ} (1 ∷ 2 ∷ 1 ∷ 2 ∷ 3 ∷ 4 ∷ 5 ∷ []) (([] ++ take m text) ++ text))
unfolding send_impl send_loop
send_impl_again_example =
    send_impl_again sample_os taken_by 9 sender text before halfway after refl sample-Sends refl
      refl
