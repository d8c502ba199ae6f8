-- ===== src/Lpc/Table.antt =====
-- The codebook of the line spectral frequencies, of src/constants.go.
use i_lbc_go.Prelude.{List, [], ◌∷◌}
use i_lbc_go.Floats.{Decimal, plus}

abbrev pub lsf_cb_tbl : List Decimal
lsf_cb_tbl =
    plus 155396 6
    ∷ plus 273193 6
    ∷ plus 451172 6
    ∷ plus 390503 6
    ∷ plus 648071 6
    ∷ plus 1002075 6
    ∷ plus 440186 6
    ∷ plus 692261 6
    ∷ plus 955688 6
    ∷ plus 343628 6
    ∷ plus 642334 6
    ∷ plus 1071533 6
    ∷ plus 318359 6
    ∷ plus 491577 6
    ∷ plus 670532 6
    ∷ plus 193115 6
    ∷ plus 375488 6
    ∷ plus 725708 6
    ∷ plus 364136 6
    ∷ plus 510376 6
    ∷ plus 658691 6
    ∷ plus 297485 6
    ∷ plus 527588 6
    ∷ plus 842529 6
    ∷ plus 227173 6
    ∷ plus 365967 6
    ∷ plus 56311 5
    ∷ plus 244995 6
    ∷ plus 396729 6
    ∷ plus 636475 6
    ∷ plus 169434 6
    ∷ plus 300171 6
    ∷ plus 520264 6
    ∷ plus 312866 6
    ∷ plus 464478 6
    ∷ plus 643188 6
    ∷ plus 248535 6
    ∷ plus 429932 6
    ∷ plus 626099 6
    ∷ plus 236206 6
    ∷ plus 491333 6
    ∷ plus 817139 6
    ∷ plus 334961 6
    ∷ plus 625122 6
    ∷ plus 895752 6
    ∷ plus 343018 6
    ∷ plus 518555 6
    ∷ plus 698608 6
    ∷ plus 372803 6
    ∷ plus 65979 5
    ∷ plus 945435 6
    ∷ plus 17688 5
    ∷ plus 316528 6
    ∷ plus 581421 6
    ∷ plus 416382 6
    ∷ plus 625977 6
    ∷ plus 805176 6
    ∷ plus 303223 6
    ∷ plus 568726 6
    ∷ plus 915039 6
    ∷ plus 203613 6
    ∷ plus 35144 5
    ∷ plus 588135 6
    ∷ plus 221191 6
    ∷ plus 375 3
    ∷ plus 614746 6
    ∷ plus 199951 6
    ∷ plus 323364 6
    ∷ plus 476074 6
    ∷ plus 300781 6
    ∷ plus 43335 5
    ∷ plus 566895 6
    ∷ plus 226196 6
    ∷ plus 354004 6
    ∷ plus 507568 6
    ∷ plus 300049 6
    ∷ plus 508179 6
    ∷ plus 71167 5
    ∷ plus 312012 6
    ∷ plus 492676 6
    ∷ plus 763428 6
    ∷ plus 329956 6
    ∷ plus 541016 6
    ∷ plus 795776 6
    ∷ plus 373779 6
    ∷ plus 604614 6
    ∷ plus 928833 6
    ∷ plus 210571 6
    ∷ plus 452026 6
    ∷ plus 755249 6
    ∷ plus 271118 6
    ∷ plus 473267 6
    ∷ plus 662476 6
    ∷ plus 285522 6
    ∷ plus 43689 5
    ∷ plus 634399 6
    ∷ plus 246704 6
    ∷ plus 565552 6
    ∷ plus 859009 6
    ∷ plus 270508 6
    ∷ plus 40625 5
    ∷ plus 553589 6
    ∷ plus 36145 5
    ∷ plus 578491 6
    ∷ plus 813843 6
    ∷ plus 342651 6
    ∷ plus 482788 6
    ∷ plus 622437 6
    ∷ plus 340332 6
    ∷ plus 549438 6
    ∷ plus 743164 6
    ∷ plus 200439 6
    ∷ plus 336304 6
    ∷ plus 540894 6
    ∷ plus 407837 6
    ∷ plus 644775 6
    ∷ plus 895142 6
    ∷ plus 294678 6
    ∷ plus 454834 6
    ∷ plus 699097 6
    ∷ plus 193115 6
    ∷ plus 344482 6
    ∷ plus 643188 6
    ∷ plus 275757 6
    ∷ plus 420776 6
    ∷ plus 598755 6
    ∷ plus 380493 6
    ∷ plus 608643 6
    ∷ plus 861084 6
    ∷ plus 222778 6
    ∷ plus 426147 6
    ∷ plus 676514 6
    ∷ plus 407471 6
    ∷ plus 700195 6
    ∷ plus 1053101 6
    ∷ plus 218384 6
    ∷ plus 377197 6
    ∷ plus 669922 6
    ∷ plus 313232 6
    ∷ plus 454102 6
    ∷ plus 600952 6
    ∷ plus 347412 6
    ∷ plus 571533 6
    ∷ plus 874146 6
    ∷ plus 238037 6
    ∷ plus 405396 6
    ∷ plus 729492 6
    ∷ plus 223877 6
    ∷ plus 412964 6
    ∷ plus 822021 6
    ∷ plus 395264 6
    ∷ plus 582153 6
    ∷ plus 743896 6
    ∷ plus 247925 6
    ∷ plus 485596 6
    ∷ plus 720581 6
    ∷ plus 229126 6
    ∷ plus 496582 6
    ∷ plus 907715 6
    ∷ plus 260132 6
    ∷ plus 566895 6
    ∷ plus 1012695 6
    ∷ plus 337402 6
    ∷ plus 611572 6
    ∷ plus 978149 6
    ∷ plus 267822 6
    ∷ plus 447632 6
    ∷ plus 769287 6
    ∷ plus 25061 5
    ∷ plus 381714 6
    ∷ plus 530029 6
    ∷ plus 430054 6
    ∷ plus 805054 6
    ∷ plus 1221924 6
    ∷ plus 382568 6
    ∷ plus 544067 6
    ∷ plus 70166 5
    ∷ plus 383545 6
    ∷ plus 710327 6
    ∷ plus 114917 5
    ∷ plus 271362 6
    ∷ plus 529053 6
    ∷ plus 775513 6
    ∷ plus 246826 6
    ∷ plus 393555 6
    ∷ plus 588623 6
    ∷ plus 266846 6
    ∷ plus 422119 6
    ∷ plus 676758 6
    ∷ plus 311523 6
    ∷ plus 580688 6
    ∷ plus 838623 6
    ∷ plus 1331177 6
    ∷ plus 1576782 6
    ∷ plus 1779541 6
    ∷ plus 1160034 6
    ∷ plus 1401978 6
    ∷ plus 1768188 6
    ∷ plus 1161865 6
    ∷ plus 1525146 6
    ∷ plus 1715332 6
    ∷ plus 759521 6
    ∷ plus 91394 5
    ∷ plus 1119873 6
    ∷ plus 947144 6
    ∷ plus 1121338 6
    ∷ plus 1282471 6
    ∷ plus 1015015 6
    ∷ plus 1557007 6
    ∷ plus 1804932 6
    ∷ plus 1172974 6
    ∷ plus 14021 4
    ∷ plus 1692627 6
    ∷ plus 1087524 6
    ∷ plus 1474243 6
    ∷ plus 1665405 6
    ∷ plus 899536 6
    ∷ plus 1105225 6
    ∷ plus 140625 5
    ∷ plus 1148438 6
    ∷ plus 1484741 6
    ∷ plus 1796265 6
    ∷ plus 785645 6
    ∷ plus 1209839 6
    ∷ plus 1567749 6
    ∷ plus 867798 6
    ∷ plus 1166504 6
    ∷ plus 1450684 6
    ∷ plus 922485 6
    ∷ plus 1229858 6
    ∷ plus 1420898 6
    ∷ plus 79126 5
    ∷ plus 1123291 6
    ∷ plus 1409546 6
    ∷ plus 78894 5
    ∷ plus 966064 6
    ∷ plus 1340332 6
    ∷ plus 1051147 6
    ∷ plus 1272827 6
    ∷ plus 1556641 6
    ∷ plus 866821 6
    ∷ plus 1181152 6
    ∷ plus 1538818 6
    ∷ plus 906738 6
    ∷ plus 1373535 6
    ∷ plus 160791 5
    ∷ plus 1244751 6
    ∷ plus 1581421 6
    ∷ plus 1933838 6
    ∷ plus 91394 5
    ∷ plus 133728 5
    ∷ plus 1539673 6
    ∷ plus 680542 6
    ∷ plus 959229 6
    ∷ plus 166272 5
    ∷ plus 887207 6
    ∷ plus 1430542 6
    ∷ plus 1800781 6
    ∷ plus 912598 6
    ∷ plus 1433594 6
    ∷ plus 168396 5
    ∷ plus 860474 6
    ∷ plus 1060303 6
    ∷ plus 1455322 6
    ∷ plus 1005127 6
    ∷ plus 1381104 6
    ∷ plus 1706909 6
    ∷ plus 800781 6
    ∷ plus 1363892 6
    ∷ plus 1829102 6
    ∷ plus 78186 5
    ∷ plus 112439 5
    ∷ plus 1505981 6
    ∷ plus 1003662 6
    ∷ plus 1471436 6
    ∷ plus 1684692 6
    ∷ plus 981323 6
    ∷ plus 130957 5
    ∷ plus 1618042 6
    ∷ plus 122876 5
    ∷ plus 1554321 6
    ∷ plus 175647 5
    ∷ plus 734375 6
    ∷ plus 895752 6
    ∷ plus 1225586 6
    ∷ plus 841797 6
    ∷ plus 1055664 6
    ∷ plus 1249268 6
    ∷ plus 920166 6
    ∷ plus 1119385 6
    ∷ plus 1486206 6
    ∷ plus 894409 6
    ∷ plus 1539063 6
    ∷ plus 1828979 6
    ∷ plus 1283691 6
    ∷ plus 1543335 6
    ∷ plus 1858276 6
    ∷ plus 676025 6
    ∷ plus 933105 6
    ∷ plus 1490845 6
    ∷ plus 821289 6
    ∷ plus 1491821 6
    ∷ plus 1739868 6
    ∷ plus 923218 6
    ∷ plus 1144653 6
    ∷ plus 1580566 6
    ∷ plus 1057251 6
    ∷ plus 1345581 6
    ∷ plus 1635864 6
    ∷ plus 888672 6
    ∷ plus 1074951 6
    ∷ plus 1353149 6
    ∷ plus 942749 6
    ∷ plus 1195435 6
    ∷ plus 1505493 6
    ∷ plus 149231 5
    ∷ plus 1788086 6
    ∷ plus 2039673 6
    ∷ plus 1070313 6
    ∷ plus 1634399 6
    ∷ plus 1860962 6
    ∷ plus 1253296 6
    ∷ plus 1488892 6
    ∷ plus 1686035 6
    ∷ plus 647095 6
    ∷ plus 864014 6
    ∷ plus 1401855 6
    ∷ plus 866699 6
    ∷ plus 1254883 6
    ∷ plus 1453369 6
    ∷ plus 1063965 6
    ∷ plus 1532593 6
    ∷ plus 1731323 6
    ∷ plus 1167847 6
    ∷ plus 1521484 6
    ∷ plus 1884033 6
    ∷ plus 956055 6
    ∷ plus 1502075 6
    ∷ plus 1745605 6
    ∷ plus 928711 6
    ∷ plus 1288574 6
    ∷ plus 1479614 6
    ∷ plus 1088013 6
    ∷ plus 1380737 6
    ∷ plus 1570801 6
    ∷ plus 905029 6
    ∷ plus 1186768 6
    ∷ plus 1371948 6
    ∷ plus 1057861 6
    ∷ plus 1421021 6
    ∷ plus 1617432 6
    ∷ plus 1108276 6
    ∷ plus 13125 4
    ∷ plus 1501465 6
    ∷ plus 979492 6
    ∷ plus 1416992 6
    ∷ plus 1624268 6
    ∷ plus 1276001 6
    ∷ plus 1661011 6
    ∷ plus 2007935 6
    ∷ plus 993042 6
    ∷ plus 1168579 6
    ∷ plus 1331665 6
    ∷ plus 778198 6
    ∷ plus 944946 6
    ∷ plus 1235962 6
    ∷ plus 1223755 6
    ∷ plus 1491333 6
    ∷ plus 1815674 6
    ∷ plus 852661 6
    ∷ plus 1350464 6
    ∷ plus 172229 5
    ∷ plus 1134766 6
    ∷ plus 159314 5
    ∷ plus 1787354 6
    ∷ plus 1051392 6
    ∷ plus 1339722 6
    ∷ plus 1531006 6
    ∷ plus 803589 6
    ∷ plus 127124 5
    ∷ plus 16521 4
    ∷ plus 755737 6
    ∷ plus 1143555 6
    ∷ plus 1639404 6
    ∷ plus 700928 6
    ∷ plus 83728 5
    ∷ plus 1130371 6
    ∷ plus 942749 6
    ∷ plus 1197876 6
    ∷ plus 16698 4
    ∷ plus 993286 6
    ∷ plus 1378296 6
    ∷ plus 1566528 6
    ∷ plus 801025 6
    ∷ plus 1095337 6
    ∷ plus 129895 5
    ∷ plus 73999 5
    ∷ plus 1032959 6
    ∷ plus 1383667 6
    ∷ plus 845703 6
    ∷ plus 1072266 6
    ∷ plus 1543823 6
    ∷ plus 915649 6
    ∷ plus 1072266 6
    ∷ plus 1224487 6
    ∷ plus 1021973 6
    ∷ plus 1226196 6
    ∷ plus 1481323 6
    ∷ plus 999878 6
    ∷ plus 1204102 6
    ∷ plus 1555908 6
    ∷ plus 72229 5
    ∷ plus 91394 5
    ∷ plus 134021 5
    ∷ plus 67334 5
    ∷ plus 835938 6
    ∷ plus 1259521 6
    ∷ plus 832397 6
    ∷ plus 1208374 6
    ∷ plus 1394165 6
    ∷ plus 962158 6
    ∷ plus 1576172 6
    ∷ plus 1912842 6
    ∷ plus 1166748 6
    ∷ plus 137085 5
    ∷ plus 1556763 6
    ∷ plus 946289 6
    ∷ plus 113855 5
    ∷ plus 1400391 6
    ∷ plus 1035034 6
    ∷ plus 1218262 6
    ∷ plus 1386475 6
    ∷ plus 1393799 6
    ∷ plus 1717773 6
    ∷ plus 2000244 6
    ∷ plus 972656 6
    ∷ plus 1260986 6
    ∷ plus 176062 5
    ∷ plus 1028198 6
    ∷ plus 1288452 6
    ∷ plus 1484619 6
    ∷ plus 77356 5
    ∷ plus 1258057 6
    ∷ plus 1756714 6
    ∷ plus 1080322 6
    ∷ plus 1328003 6
    ∷ plus 1742676 6
    ∷ plus 823975 6
    ∷ plus 1450806 6
    ∷ plus 1917725 6
    ∷ plus 859009 6
    ∷ plus 1016602 6
    ∷ plus 1191895 6
    ∷ plus 843994 6
    ∷ plus 1131104 6
    ∷ plus 164502 5
    ∷ plus 1189697 6
    ∷ plus 1702759 6
    ∷ plus 1894409 6
    ∷ plus 134668 5
    ∷ plus 1763184 6
    ∷ plus 206604 5
    ∷ plus 980469 6
    ∷ plus 1253784 6
    ∷ plus 144165 5
    ∷ plus 1338135 6
    ∷ plus 1641968 6
    ∷ plus 1932739 6
    ∷ plus 1223267 6
    ∷ plus 1424194 6
    ∷ plus 1626465 6
    ∷ plus 765747 6
    ∷ plus 100415 5
    ∷ plus 1579102 6
    ∷ plus 1042847 6
    ∷ plus 1269165 6
    ∷ plus 1647461 6
    ∷ plus 96875 5
    ∷ plus 1257568 6
    ∷ plus 1555786 6
    ∷ plus 826294 6
    ∷ plus 993408 6
    ∷ plus 1275146 6
    ∷ plus 74231 5
    ∷ plus 950439 6
    ∷ plus 1430542 6
    ∷ plus 1054321 6
    ∷ plus 1439819 6
    ∷ plus 1828003 6
    ∷ plus 1072998 6
    ∷ plus 1261719 6
    ∷ plus 1441895 6
    ∷ plus 859375 6
    ∷ plus 1036377 6
    ∷ plus 1314819 6
    ∷ plus 895752 6
    ∷ plus 1267212 6
    ∷ plus 1605591 6
    ∷ plus 80542 5
    ∷ plus 962891 6
    ∷ plus 1142334 6
    ∷ plus 795654 6
    ∷ plus 1005493 6
    ∷ plus 1468506 6
    ∷ plus 1105347 6
    ∷ plus 1313843 6
    ∷ plus 1584839 6
    ∷ plus 792236 6
    ∷ plus 1221802 6
    ∷ plus 1465698 6
    ∷ plus 1170532 6
    ∷ plus 1467651 6
    ∷ plus 1664063 6
    ∷ plus 838257 6
    ∷ plus 1153198 6
    ∷ plus 1342163 6
    ∷ plus 968018 6
    ∷ plus 1198242 6
    ∷ plus 1391235 6
    ∷ plus 1250122 6
    ∷ plus 1623535 6
    ∷ plus 1823608 6
    ∷ plus 71167 5
    ∷ plus 105835 5
    ∷ plus 1512085 6
    ∷ plus 1204834 6
    ∷ plus 1454468 6
    ∷ plus 1739136 6
    ∷ plus 1137451 6
    ∷ plus 1421753 6
    ∷ plus 1620117 6
    ∷ plus 820435 6
    ∷ plus 1322754 6
    ∷ plus 1578247 6
    ∷ plus 798706 6
    ∷ plus 1005005 6
    ∷ plus 1213867 6
    ∷ plus 980713 6
    ∷ plus 1324951 6
    ∷ plus 1512939 6
    ∷ plus 1112305 6
    ∷ plus 1438843 6
    ∷ plus 1735596 6
    ∷ plus 1135498 6
    ∷ plus 1356689 6
    ∷ plus 1635742 6
    ∷ plus 1101318 6
    ∷ plus 1387451 6
    ∷ plus 1686523 6
    ∷ plus 849854 6
    ∷ plus 1276978 6
    ∷ plus 1523438 6
    ∷ plus 137793 5
    ∷ plus 1627563 6
    ∷ plus 1858154 6
    ∷ plus 884888 6
    ∷ plus 1095459 6
    ∷ plus 1287476 6
    ∷ plus 1289795 6
    ∷ plus 1505859 6
    ∷ plus 1756592 6
    ∷ plus 817505 6
    ∷ plus 1384155 6
    ∷ plus 1650513 6
    ∷ plus 1446655 6
    ∷ plus 1702148 6
    ∷ plus 1931885 6
    ∷ plus 835815 6
    ∷ plus 1023071 6
    ∷ plus 1385376 6
    ∷ plus 916626 6
    ∷ plus 1139038 6
    ∷ plus 1335327 6
    ∷ plus 980103 6
    ∷ plus 1174072 6
    ∷ plus 1453735 6
    ∷ plus 1705688 6
    ∷ plus 2153809 6
    ∷ plus 2398315 6
    ∷ plus 2743408 6
    ∷ plus 1797119 6
    ∷ plus 2016846 6
    ∷ plus 2445679 6
    ∷ plus 2701904 6
    ∷ plus 1990356 6
    ∷ plus 2219116 6
    ∷ plus 2576416 6
    ∷ plus 2813477 6
    ∷ plus 1849365 6
    ∷ plus 2190918 6
    ∷ plus 2611572 6
    ∷ plus 2835083 6
    ∷ plus 1657959 6
    ∷ plus 185437 5
    ∷ plus 2159058 6
    ∷ plus 2726196 6
    ∷ plus 1437744 6
    ∷ plus 1897705 6
    ∷ plus 2253174 6
    ∷ plus 2655396 6
    ∷ plus 2028687 6
    ∷ plus 2247314 6
    ∷ plus 2542358 6
    ∷ plus 2875854 6
    ∷ plus 1736938 6
    ∷ plus 1922119 6
    ∷ plus 2185913 6
    ∷ plus 2743408 6
    ∷ plus 1521606 6
    ∷ plus 1870972 6
    ∷ plus 2526855 6
    ∷ plus 2786987 6
    ∷ plus 1841431 6
    ∷ plus 2050659 6
    ∷ plus 2463623 6
    ∷ plus 2857666 6
    ∷ plus 1590088 6
    ∷ plus 2067261 6
    ∷ plus 2427979 6
    ∷ plus 2794434 6
    ∷ plus 1746826 6
    ∷ plus 2057373 6
    ∷ plus 232019 5
    ∷ plus 2800781 6
    ∷ plus 1734619 6
    ∷ plus 1940552 6
    ∷ plus 230603 5
    ∷ plus 2826416 6
    ∷ plus 1786255 6
    ∷ plus 2204468 6
    ∷ plus 245752 5
    ∷ plus 2795288 6
    ∷ plus 1861084 6
    ∷ plus 2170532 6
    ∷ plus 2414551 6
    ∷ plus 2763672 6
    ∷ plus 2001465 6
    ∷ plus 2307617 6
    ∷ plus 2552734 6
    ∷ plus 281189 5
    ∷ plus 1784424 6
    ∷ plus 2124146 6
    ∷ plus 2381592 6
    ∷ plus 2645508 6
    ∷ plus 1888794 6
    ∷ plus 2135864 6
    ∷ plus 2418579 6
    ∷ plus 2861206 6
    ∷ plus 2301147 6
    ∷ plus 253125 5
    ∷ plus 2724976 6
    ∷ plus 2913086 6
    ∷ plus 1837769 6
    ∷ plus 205127 5
    ∷ plus 2261963 6
    ∷ plus 2553223 6
    ∷ plus 2012939 6
    ∷ plus 2221191 6
    ∷ plus 2440186 6
    ∷ plus 2678101 6
    ∷ plus 1429565 6
    ∷ plus 1858276 6
    ∷ plus 2582275 6
    ∷ plus 2845703 6
    ∷ plus 1622803 6
    ∷ plus 1897705 6
    ∷ plus 236731 5
    ∷ plus 2621094 6
    ∷ plus 1581543 6
    ∷ plus 1960449 6
    ∷ plus 2515869 6
    ∷ plus 273645 5
    ∷ plus 1419434 6
    ∷ plus 193396 5
    ∷ plus 2394653 6
    ∷ plus 2746704 6
    ∷ plus 1721924 6
    ∷ plus 205957 5
    ∷ plus 2421753 6
    ∷ plus 2769653 6
    ∷ plus 1911011 6
    ∷ plus 2220703 6
    ∷ plus 246106 5
    ∷ plus 2740723 6
    ∷ plus 1581177 6
    ∷ plus 186084 5
    ∷ plus 2516968 6
    ∷ plus 2874634 6
    ∷ plus 1870361 6
    ∷ plus 2098755 6
    ∷ plus 2432373 6
    ∷ plus 2656494 6
    ∷ plus 2059692 6
    ∷ plus 2279785 6
    ∷ plus 2495605 6
    ∷ plus 272937 5
    ∷ plus 1815674 6
    ∷ plus 2181519 6
    ∷ plus 2451538 6
    ∷ plus 2680542 6
    ∷ plus 1407959 6
    ∷ plus 1768311 6
    ∷ plus 2343018 6
    ∷ plus 2668091 6
    ∷ plus 2168701 6
    ∷ plus 2394653 6
    ∷ plus 2604736 6
    ∷ plus 2829346 6
    ∷ plus 163623 5
    ∷ plus 1865723 6
    ∷ plus 2329102 6
    ∷ plus 2824219 6
    ∷ plus 1878906 6
    ∷ plus 2139526 6
    ∷ plus 2376709 6
    ∷ plus 267981 5
    ∷ plus 1765381 6
    ∷ plus 1971802 6
    ∷ plus 2195435 6
    ∷ plus 2586914 6
    ∷ plus 2164795 6
    ∷ plus 2410889 6
    ∷ plus 2673706 6
    ∷ plus 2903198 6
    ∷ plus 2071899 6
    ∷ plus 2331055 6
    ∷ plus 2645874 6
    ∷ plus 2907104 6
    ∷ plus 2026001 6
    ∷ plus 2311523 6
    ∷ plus 2594849 6
    ∷ plus 2863892 6
    ∷ plus 1948975 6
    ∷ plus 2180786 6
    ∷ plus 2514893 6
    ∷ plus 2797852 6
    ∷ plus 1881836 6
    ∷ plus 2130859 6
    ∷ plus 2478149 6
    ∷ plus 2804199 6
    ∷ plus 2238159 6
    ∷ plus 2452759 6
    ∷ plus 2652832 6
    ∷ plus 2868286 6
    ∷ plus 1897949 6
    ∷ plus 2101685 6
    ∷ plus 2524292 6
    ∷ plus 2880127 6
    ∷ plus 1856445 6
    ∷ plus 2074585 6
    ∷ plus 2541016 6
    ∷ plus 2791748 6
    ∷ plus 1695557 6
    ∷ plus 2199097 6
    ∷ plus 2506226 6
    ∷ plus 2742676 6
    ∷ plus 1612671 6
    ∷ plus 1877075 6
    ∷ plus 2435425 6
    ∷ plus 273291 5
    ∷ plus 1568848 6
    ∷ plus 1786499 6
    ∷ plus 219458 5
    ∷ plus 2768555 6
    ∷ plus 1953369 6
    ∷ plus 2164551 6
    ∷ plus 2486938 6
    ∷ plus 2874023 6
    ∷ plus 1388306 6
    ∷ plus 1725342 6
    ∷ plus 2384521 6
    ∷ plus 2771851 6
    ∷ plus 2115356 6
    ∷ plus 2337769 6
    ∷ plus 2592896 6
    ∷ plus 2864014 6
    ∷ plus 1905762 6
    ∷ plus 2111328 6
    ∷ plus 2363525 6
    ∷ plus 2789307 6
    ∷ plus 1882568 6
    ∷ plus 2332031 6
    ∷ plus 2598267 6
    ∷ plus 2827637 6
    ∷ plus 1683594 6
    ∷ plus 2088745 6
    ∷ plus 2361938 6
    ∷ plus 2608643 6
    ∷ plus 1874023 6
    ∷ plus 2182129 6
    ∷ plus 2536133 6
    ∷ plus 2766968 6
    ∷ plus 1861938 6
    ∷ plus 2070435 6
    ∷ plus 2309692 6
    ∷ plus 2700562 6
    ∷ plus 1722168 6
    ∷ plus 2107422 6
    ∷ plus 2477295 6
    ∷ plus 2837646 6
    ∷ plus 192688 5
    ∷ plus 2184692 6
    ∷ plus 2442627 6
    ∷ plus 2663818 6
    ∷ plus 2123901 6
    ∷ plus 233728 5
    ∷ plus 2553101 6
    ∷ plus 2777466 6
    ∷ plus 1588135 6
    ∷ plus 1911499 6
    ∷ plus 2212769 6
    ∷ plus 2543945 6
    ∷ plus 2053955 6
    ∷ plus 237085 5
    ∷ plus 2712158 6
    ∷ plus 2939941 6
    ∷ plus 2210449 6
    ∷ plus 2519653 6
    ∷ plus 2770386 6
    ∷ plus 2958618 6
    ∷ plus 2199463 6
    ∷ plus 2474731 6
    ∷ plus 2718262 6
    ∷ plus 2919922 6
    ∷ plus 1960083 6
    ∷ plus 2175415 6
    ∷ plus 2608032 6
    ∷ plus 2888794 6
    ∷ plus 1953735 6
    ∷ plus 2185181 6
    ∷ plus 2428223 6
    ∷ plus 280957 5
    ∷ plus 1615234 6
    ∷ plus 2036499 6
    ∷ plus 2576538 6
    ∷ plus 2834595 6
    ∷ plus 1621094 6
    ∷ plus 2028198 6
    ∷ plus 243103 5
    ∷ plus 2664673 6
    ∷ plus 1824951 6
    ∷ plus 2267456 6
    ∷ plus 2514526 6
    ∷ plus 2747925 6
    ∷ plus 1994263 6
    ∷ plus 2229126 6
    ∷ plus 247522 5
    ∷ plus 2833984 6
    ∷ plus 1746338 6
    ∷ plus 2011353 6
    ∷ plus 2588257 6
    ∷ plus 2826904 6
    ∷ plus 1562866 6
    ∷ plus 2135986 6
    ∷ plus 247168 5
    ∷ plus 2687256 6
    ∷ plus 1748901 6
    ∷ plus 2083496 6
    ∷ plus 2460938 6
    ∷ plus 2686279 6
    ∷ plus 1758057 6
    ∷ plus 213147 5
    ∷ plus 2636597 6
    ∷ plus 2891602 6
    ∷ plus 2071289 6
    ∷ plus 2299072 6
    ∷ plus 2550781 6
    ∷ plus 2814331 6
    ∷ plus 18396 4
    ∷ plus 209436 5
    ∷ plus 249646 5
    ∷ plus 2723999 6
    ∷ plus 1882202 6
    ∷ plus 2088257 6
    ∷ plus 2636841 6
    ∷ plus 2923096 6
    ∷ plus 1957886 6
    ∷ plus 2153198 6
    ∷ plus 2384399 6
    ∷ plus 2615234 6
    ∷ plus 199292 5
    ∷ plus 2351196 6
    ∷ plus 2654419 6
    ∷ plus 2889771 6
    ∷ plus 2012817 6
    ∷ plus 2262451 6
    ∷ plus 2643799 6
    ∷ plus 2903076 6
    ∷ plus 2025635 6
    ∷ plus 2254761 6
    ∷ plus 2508423 6
    ∷ plus 2784058 6
    ∷ plus 231604 5
    ∷ plus 2589355 6
    ∷ plus 2794189 6
    ∷ plus 2963623 6
    ∷ plus 1741211 6
    ∷ plus 2279541 6
    ∷ plus 2578491 6
    ∷ plus 2816284 6
    ∷ plus 1845337 6
    ∷ plus 2055786 6
    ∷ plus 2348511 6
    ∷ plus 2822021 6
    ∷ plus 1679932 6
    ∷ plus 1926514 6
    ∷ plus 2499756 6
    ∷ plus 2835693 6
    ∷ plus 1722534 6
    ∷ plus 1946899 6
    ∷ plus 2448486 6
    ∷ plus 272876 5
    ∷ plus 1829834 6
    ∷ plus 2043213 6
    ∷ plus 2580444 6
    ∷ plus 2867676 6
    ∷ plus 1676636 6
    ∷ plus 2071655 6
    ∷ plus 232251 5
    ∷ plus 2704834 6
    ∷ plus 1791504 6
    ∷ plus 2113525 6
    ∷ plus 2469727 6
    ∷ plus 2784058 6
    ∷ plus 1977051 6
    ∷ plus 2215088 6
    ∷ plus 2497437 6
    ∷ plus 2726929 6
    ∷ plus 1800171 6
    ∷ plus 2106689 6
    ∷ plus 2357788 6
    ∷ plus 2738892 6
    ∷ plus 1827759 6
    ∷ plus 2170166 6
    ∷ plus 2525879 6
    ∷ plus 2852417 6
    ∷ plus 1918335 6
    ∷ plus 2132813 6
    ∷ plus 2488403 6
    ∷ plus 2728149 6
    ∷ plus 1916748 6
    ∷ plus 2225098 6
    ∷ plus 2542603 6
    ∷ plus 2857666 6
    ∷ plus 176123 5
    ∷ plus 1976074 6
    ∷ plus 2507446 6
    ∷ plus 2884521 6
    ∷ plus 2053711 6
    ∷ plus 2367432 6
    ∷ plus 2608032 6
    ∷ plus 2837646 6
    ∷ plus 1595337 6
    ∷ plus 2000977 6
    ∷ plus 2307129 6
    ∷ plus 2578247 6
    ∷ plus 1470581 6
    ∷ plus 203125 5
    ∷ plus 2375854 6
    ∷ plus 2647583 6
    ∷ plus 1801392 6
    ∷ plus 2128052 6
    ∷ plus 239978 5
    ∷ plus 2822876 6
    ∷ plus 1853638 6
    ∷ plus 206665 5
    ∷ plus 2429199 6
    ∷ plus 2751465 6
    ∷ plus 1956299 6
    ∷ plus 2163696 6
    ∷ plus 2394775 6
    ∷ plus 2734253 6
    ∷ plus 1963623 6
    ∷ plus 2275757 6
    ∷ plus 2585327 6
    ∷ plus 2865234 6
    ∷ plus 1887451 6
    ∷ plus 2105469 6
    ∷ plus 2331787 6
    ∷ plus 2587402 6
    ∷ plus 2120117 6
    ∷ plus 2443359 6
    ∷ plus 2733887 6
    ∷ plus 2941406 6
    ∷ plus 1506348 6
    ∷ plus 1766968 6
    ∷ plus 2400513 6
    ∷ plus 2851807 6
    ∷ plus 1664551 6
    ∷ plus 1981079 6
    ∷ plus 2375732 6
    ∷ plus 2774414 6
    ∷ plus 1720703 6
    ∷ plus 1978882 6
    ∷ plus 2391479 6
    ∷ plus 2640991 6
    ∷ plus 1483398 6
    ∷ plus 1814819 6
    ∷ plus 2434448 6
    ∷ plus 272229 5
    ∷ plus 1769043 6
    ∷ plus 2136597 6
    ∷ plus 2563721 6
    ∷ plus 2774414 6
    ∷ plus 1810791 6
    ∷ plus 2049316 6
    ∷ plus 2373901 6
    ∷ plus 2613647 6
    ∷ plus 178833 5
    ∷ plus 2005981 6
    ∷ plus 2359131 6
    ∷ plus 2723145 6
    ∷ plus 1785156 6
    ∷ plus 1993164 6
    ∷ plus 239978 5
    ∷ plus 283252 5
    ∷ plus 1695313 6
    ∷ plus 2022949 6
    ∷ plus 2522583 6
    ∷ plus 2745117 6
    ∷ plus 1584106 6
    ∷ plus 1965576 6
    ∷ plus 2299927 6
    ∷ plus 2715576 6
    ∷ plus 1894897 6
    ∷ plus 2249878 6
    ∷ plus 2655884 6
    ∷ plus 2897705 6
    ∷ plus 1720581 6
    ∷ plus 1995728 6
    ∷ plus 2299438 6
    ∷ plus 2557007 6
    ∷ plus 1619385 6
    ∷ plus 217395 5
    ∷ plus 2574219 6
    ∷ plus 2787964 6
    ∷ plus 1883179 6
    ∷ plus 2220459 6
    ∷ plus 2474365 6
    ∷ plus 2825073 6
    ∷ plus 1447632 6
    ∷ plus 2045044 6
    ∷ plus 2555542 6
    ∷ plus 2744873 6
    ∷ plus 1502686 6
    ∷ plus 2156616 6
    ∷ plus 265332 5
    ∷ plus 2846558 6
    ∷ plus 1711548 6
    ∷ plus 1944092 6
    ∷ plus 2282959 6
    ∷ plus 2685791 6
    ∷ plus 1499756 6
    ∷ plus 1867554 6
    ∷ plus 2341064 6
    ∷ plus 2578857 6
    ∷ plus 191687 5
    ∷ plus 2135132 6
    ∷ plus 2568237 6
    ∷ plus 282605 5
    ∷ plus 1498047 6
    ∷ plus 1711182 6
    ∷ plus 2223267 6
    ∷ plus 2755127 6
    ∷ plus 1808716 6
    ∷ plus 1997559 6
    ∷ plus 225647 5
    ∷ plus 2758545 6
    ∷ plus 2088501 6
    ∷ plus 240271 5
    ∷ plus 2667358 6
    ∷ plus 2890259 6
    ∷ plus 1545044 6
    ∷ plus 1819214 6
    ∷ plus 2324097 6
    ∷ plus 2692993 6
    ∷ plus 1796021 6
    ∷ plus 2012573 6
    ∷ plus 2505737 6
    ∷ plus 2784912 6
    ∷ plus 1786499 6
    ∷ plus 2041748 6
    ∷ plus 2290405 6
    ∷ plus 2650757 6
    ∷ plus 1938232 6
    ∷ plus 2264404 6
    ∷ plus 2529053 6
    ∷ plus 2796143 6
    ∷ []
