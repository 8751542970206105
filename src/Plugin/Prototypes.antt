-- ===== src/Plugin/Prototypes.antt =====
-- The prototypes that src/SockData.h, src/SockAddr.h and src/Socket.h give of the functions for scripts.
use Prim.Native.String.{String}
use agssock.Base.{List, [], ◌∷◌, ◌++◌}
use agssock.Plugin.Tables.{codes}
use agssock.Plugin.Types.{CType, integral, text, nothing, object, Signature}

abbrev prototype : CType → String → List CType → Signature
prototype t x ps = record { name = codes x; result = t; params = ps }

abbrev data_ptr : CType
data_ptr = object (codes "SockData")

abbrev addr_ptr : CType
addr_ptr = object (codes "SockAddr")

abbrev sock_ptr : CType
sock_ptr = object (codes "Socket")

abbrev pub sock_data_prototypes : List Signature
sock_data_prototypes =
    prototype data_ptr "SockData_Create" (integral ∷ integral ∷ [])
    ∷ prototype data_ptr "SockData_CreateEmpty" []
    ∷ prototype data_ptr "SockData_CreateFromString" (text ∷ [])
    ∷ prototype integral "SockData_get_Size" (data_ptr ∷ [])
    ∷ prototype nothing "SockData_set_Size" (data_ptr ∷ integral ∷ [])
    ∷ prototype integral "SockData_geti_Chars" (data_ptr ∷ integral ∷ [])
    ∷ prototype nothing "SockData_seti_Chars" (data_ptr ∷ integral ∷ integral ∷ [])
    ∷ prototype text "SockData_AsString" (data_ptr ∷ [])
    ∷ prototype nothing "SockData_Clear" (data_ptr ∷ [])
    ∷ []

abbrev pub sock_addr_prototypes : List Signature
sock_addr_prototypes =
    prototype addr_ptr "SockAddr_Create" (integral ∷ [])
    ∷ prototype addr_ptr "SockAddr_CreateFromString" (text ∷ integral ∷ [])
    ∷ prototype addr_ptr "SockAddr_CreateFromData" (data_ptr ∷ [])
    ∷ prototype addr_ptr "SockAddr_CreateIP" (text ∷ integral ∷ [])
    ∷ prototype addr_ptr "SockAddr_CreateIPv6" (text ∷ integral ∷ [])
    ∷ prototype integral "SockAddr_get_Port" (addr_ptr ∷ [])
    ∷ prototype nothing "SockAddr_set_Port" (addr_ptr ∷ integral ∷ [])
    ∷ prototype text "SockAddr_get_Address" (addr_ptr ∷ [])
    ∷ prototype nothing "SockAddr_set_Address" (addr_ptr ∷ text ∷ [])
    ∷ prototype text "SockAddr_get_IP" (addr_ptr ∷ [])
    ∷ prototype nothing "SockAddr_set_IP" (addr_ptr ∷ text ∷ [])
    ∷ prototype data_ptr "SockAddr_GetData" (addr_ptr ∷ [])
    ∷ []

abbrev pub socket_prototypes : List Signature
socket_prototypes =
    prototype sock_ptr "Socket_Create" (integral ∷ integral ∷ integral ∷ [])
    ∷ prototype sock_ptr "Socket_CreateUDP" []
    ∷ prototype sock_ptr "Socket_CreateTCP" []
    ∷ prototype sock_ptr "Socket_CreateUDPv6" []
    ∷ prototype sock_ptr "Socket_CreateTCPv6" []
    ∷ prototype integral "Socket_get_Valid" (sock_ptr ∷ [])
    ∷ prototype text "Socket_get_Tag" (sock_ptr ∷ [])
    ∷ prototype nothing "Socket_set_Tag" (sock_ptr ∷ text ∷ [])
    ∷ prototype addr_ptr "Socket_get_Local" (sock_ptr ∷ [])
    ∷ prototype addr_ptr "Socket_get_Remote" (sock_ptr ∷ [])
    ∷ prototype integral "Socket_ErrorValue" (sock_ptr ∷ [])
    ∷ prototype text "Socket_ErrorString" (sock_ptr ∷ [])
    ∷ prototype integral "Socket_Bind" (sock_ptr ∷ addr_ptr ∷ [])
    ∷ prototype integral "Socket_Listen" (sock_ptr ∷ integral ∷ [])
    ∷ prototype integral "Socket_Connect" (sock_ptr ∷ addr_ptr ∷ integral ∷ [])
    ∷ prototype sock_ptr "Socket_Accept" (sock_ptr ∷ [])
    ∷ prototype nothing "Socket_Close" (sock_ptr ∷ [])
    ∷ prototype integral "Socket_Send" (sock_ptr ∷ text ∷ [])
    ∷ prototype integral "Socket_SendData" (sock_ptr ∷ data_ptr ∷ [])
    ∷ prototype integral "Socket_SendTo" (sock_ptr ∷ addr_ptr ∷ text ∷ [])
    ∷ prototype integral "Socket_SendDataTo" (sock_ptr ∷ addr_ptr ∷ data_ptr ∷ [])
    ∷ prototype text "Socket_Recv" (sock_ptr ∷ [])
    ∷ prototype data_ptr "Socket_RecvData" (sock_ptr ∷ [])
    ∷ prototype text "Socket_RecvFrom" (sock_ptr ∷ addr_ptr ∷ [])
    ∷ prototype data_ptr "Socket_RecvDataFrom" (sock_ptr ∷ addr_ptr ∷ [])
    ∷ prototype integral "Socket_GetOption" (sock_ptr ∷ integral ∷ integral ∷ [])
    ∷ prototype nothing "Socket_SetOption" (sock_ptr ∷ integral ∷ integral ∷ integral ∷ [])
    ∷ []

abbrev pub prototypes : List Signature
prototypes = sock_data_prototypes ++ sock_addr_prototypes ++ socket_prototypes
